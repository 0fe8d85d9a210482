-- ===== src/Config/Lined.antt =====
-- The inner loop of `load` does what the whole lines say.
use event_server.Base.{
  ℕ, zero, suc, ◌+◌, ◌≤◌, ◌<◌, ◌≡◌, refl, ap, ◌∙◌, false, Option, none, some, List, [], ◌∷◌, ◌++◌,
  append_assoc, arith, leb, length, length-append, take, drop, take-append_le, drop-append_add,
  take_self, lt→leb,
}
use event_server.Base.Memory.{◌>>=◌}
use event_server.Config.Lines.{State, line_end, load_line}
use event_server.Config.Parsing.{
  find, Parsing, copied_size, found_at, substring, get_string, line_of, load_lines,
}
use event_server.Config.Pieces.{Lines, no_line, one_line, joined, find_line}

copied_some : (k : ℕ) (s : Parsing) → k ≤ 1022 → copied_size 1023 (some k) s ≡ k
unfolding copied_size
copied_some k s h = omega arith

abbrev from_start : List ℕ → Parsing
from_start text = record { text = text; position = 0; is_overflow = false }

found_at_lem :
    (sep text : List ℕ) {k : ℕ}
    → find sep text ≡ some k
    → found_at (some sep) (from_start text) ≡ some k
unfolding found_at
found_at_lem sep text e = e

substring_lem :
    (sep text : List ℕ) (k : ℕ)
    → found_at (some sep) (from_start text) ≡ some k
    → k ≤ 1022
    → leb (length text) 0 ≡ false
    → substring 1023 (some sep) (from_start text) ≡ (some (take k text), from_start text)
unfolding substring
substring_lem sep text k e h more = rw (more, e, copied_some k (from_start text) h, substring) refl

line_of_run :
    (sep text line : List ℕ)
    → substring 1023 (some sep) (from_start text) ≡ (some line, from_start text)
    → line_of sep text ≡ line
unfolding line_of get_string
line_of_run sep text line e =
    ap (λ (p : Option (List ℕ) × Parsing). elim p.0 [ none ↦ [] | some l ↦ l ]) e

line_of_lem :
    (sep text : List ℕ) (k : ℕ)
    → find sep text ≡ some k
    → k ≤ 1022
    → 0 < length text
    → line_of sep text ≡ take k text
line_of_lem sep text k e h more =
    line_of_run sep text (take k text)
      (substring_lem sep text k (found_at_lem sep text e) h (lt→leb (length text) 0 more))

bind_more {ℓ κ} :
    {A : Type ℓ} {B : Type κ} (o : Option A) (g : A → Option B) (h : A → Option A)
    (f : A → Option B)
    → ((a : A) → g a ≡ (h a >>= f))
    → (o >>= g) ≡ ((o >>= h) >>= f)
bind_more none g h f e = refl
bind_more (some a) g h f e = e a

module _ (raw : ℕ) (atof atoi atol : List ℕ → ℕ) where
  abbrev one : List ℕ → State → Option State
  one = load_line raw atof atoi atol

  unfoldable pub load_all : List (List ℕ) → State → Option State
  load_all [] state = some state
  load_all (line ∷ more) state = do state1 ← one line state; load_all more state1

  lines_end :
      (n : ℕ) (text : List ℕ) (state : State)
      → find line_end text ≡ none
      → load_lines raw atof atoi atol line_end (suc n) text state ≡ some (text, state)
  unfolding load_lines
  lines_end n text state e = rw (e, load_lines) refl

  lines_step :
      (n : ℕ) (text line more : List ℕ) (k : ℕ) (state : State)
      → find line_end text ≡ some k
      → line_of line_end text ≡ line
      → drop (k + 2) text ≡ more
      → load_lines raw atof atoi atol line_end (suc n) text state
        ≡ (one line state >>= load_lines raw atof atoi atol line_end n more)
  unfolding load_lines
  lines_step n text line more k state e f g = rw (e, f, g, load_lines) refl

  pub load_lines_lem :
      (lines : List (List ℕ)) (left : List ℕ) (n : ℕ) (state : State)
      → Lines lines
      → find line_end left ≡ none
      → length lines < n
      → load_lines raw atof atoi atol line_end n (joined lines ++ left) state
        ≡ (load_all lines state >>= λ st. some (left, st))
  unfolding load_all
  load_lines_lem lines left zero state ls cut h = absurd (omega arith)
  load_lines_lem [] left (suc n) state no_line cut h = lines_end n left state cut
  load_lines_lem (line ∷ more) left (suc n) state (one_line _ _ p small ls) cut h =
      let rest : List ℕ = joined more ++ left in
      let shape : joined (line ∷ more) ++ left ≡ line ++ 13 ∷ 10 ∷ rest = simp (append_assoc) in
      ap (λ t. load_lines raw atof atoi atol line_end (suc n) t state) shape
      ∙ lines_step n (line ++ 13 ∷ 10 ∷ rest) line rest (length line) state (find_line line rest p)
          (line_of_lem line_end (line ++ 13 ∷ 10 ∷ rest) (length line) (find_line line rest p)
              (omega arith) (omega (arith, length-append line (13 ∷ 10 ∷ rest)))
            ∙ take-append_le (length line) line (13 ∷ 10 ∷ rest) (omega arith)
            ∙ take_self line)
          (drop-append_add 2 line (13 ∷ 10 ∷ rest))
      ∙ bind_more (one line state) _ (load_all more) (λ st. some (left, st))
          (λ st. load_lines_lem more left n st ls cut (omega arith))
