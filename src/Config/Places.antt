-- ===== src/Config/Places.antt =====
-- Where a round of `load` begins and ends, between the lines and inside one.
use event_server.Base.{
  ℕ, zero, suc, ◌+◌, ◌-◌, ◌≤◌, ◌<◌, ◌≡◌, refl, ap, ◌∙◌, le-cases, inl, inr, Option, none, some,
  List, [], ◌∷◌, ◌++◌, append_assoc, arith, length, length-append, length-take, length-drop, ◌⊎◌,
  take, drop, get_elem?,
}
use event_server.Base.Memory.{◌>>=◌}
use event_server.Config.Lines.{State, line_end}
use event_server.Config.Parsing.{begins, find, Reading, separator}
use event_server.Config.Filled.{last_ten}
use event_server.Config.Pieces.{
  Lines, no_line, one_line, joined, find_line, find_cut, IsCut, cut_end, cut_in, Cut,
}

pub separator_lem :
    (text : List ℕ) {k : ℕ} → find line_end text ≡ some k → separator text ≡ line_end
unfolding separator
separator_lem text e = rw (e, separator) refl

-- The reading stands at the start of these lines, or inside the first one.
pub record IsAt (r : Reading) (todo : List (List ℕ)) : Type 0 where
  pub left : List ℕ
  pub offset : r.offset ≡ length left
  pub kept : take r.offset r.buf ≡ left
  pub size : length r.buf ≡ 2048
  pub whole : left ++ r.rest ≡ joined todo
  pub cut : IsCut left todo
  pub lines : Lines todo

pub cut_small :
    (left : List ℕ) (lines : List (List ℕ)) → Lines lines → IsCut left lines → length left ≤ 1022
cut_small _ [] no_line cut_end = omega arith
cut_small _ (line ∷ more) (one_line _ _ p small ls) (cut_in n _ _ h) =
    omega (arith, length-take n (line ++ line_end), length-append line line_end)

pub cut_find :
    (left : List ℕ) (lines : List (List ℕ))
    → Lines lines
    → IsCut left lines
    → find line_end left ≡ none
unfolding find begins
cut_find _ [] no_line cut_end = refl
cut_find _ (line ∷ more) (one_line _ _ p small ls) (cut_in n _ _ h) = find_cut n line p h

pub find-joined :
    (lines : List (List ℕ)) (left : List ℕ)
    → Lines lines
    → 0 < length lines
    → (k : ℕ) × (find line_end (joined lines ++ left) ≡ some k)
find-joined [] left ls h = absurd (omega arith)
find-joined (line ∷ more) left (one_line _ _ p small ls) h =
    let rest : List ℕ = joined more ++ left in
    let shape : joined (line ∷ more) ++ left ≡ line ++ 13 ∷ 10 ∷ rest = simp (append_assoc) in
    (length line, ap (find line_end) shape ∙ find_line line rest p)

pub Lines-append : (xs ys : List (List ℕ)) → Lines (xs ++ ys) → Lines xs × Lines ys
Lines-append [] ys ls = (no_line, ls)
Lines-append (x ∷ xs) ys (one_line _ _ p h ls) =
    let (a, b) = Lines-append xs ys ls in (one_line x xs p h a, b)

pub take-length-take : (m : ℕ) (xs : List ℕ) → take (length (take m xs)) xs ≡ take m xs
take-length-take zero xs = refl
take-length-take (suc m) [] = refl
take-length-take (suc m) (x ∷ xs) = ap (◌∷◌ x) (take-length-take m xs)

pub ends_ten :
    (todo : List (List ℕ)) (ys : List ℕ)
    → 0 < length (joined todo)
    → get_elem? (joined todo ++ ys) (length (joined todo) - 1) ≡ some 10
ends_ten [] ys h = absurd (omega arith)
ends_ten (line ∷ more) ys h = last_ten line more ys

pub joined_none : (ls : List (List ℕ)) → length ls < 1 → length (joined ls) ≡ 0
joined_none [] h = refl
joined_none (l ∷ ls) h = absurd (omega arith)

pub joined_long : (ls : List (List ℕ)) → length ls ≤ length (joined ls)
joined_long [] = omega arith
joined_long (l ∷ ls) =
    omega
      (arith, length-append (l ++ line_end) (joined ls), length-append l line_end, joined_long ls)

pub cut_strict :
    (left : List ℕ) (later : List (List ℕ))
    → IsCut left later
    → 0 < length left
    → length left < length (joined later)
cut_strict _ [] cut_end h = absurd (omega arith)
cut_strict _ (line ∷ more) (cut_in n _ _ small) h = omega (
  arith,
  length-take n (line ++ line_end),
  length-append line line_end,
  length-append (line ++ line_end) (joined more),
)

-- A full buffer, and one that holds all that is left, has a whole line.
pub some_whole :
    (todo : List (List ℕ)) (n : ℕ) (c : Cut todo n)
    → Lines c.later
    → 0 < n
    → n ≤ length (joined todo)
    → (n ≡ 1024) ⊎ (n ≡ length (joined todo))
    → 0 < length c.whole
some_whole todo n c ls h within ends = elim (le-cases 1 (length c.whole)) [
  | inl some_line ↦ some_line
  | inr no_lines ↦
      let all_left : length c.left ≡ n = omega (
        arith,
        within,
        length-take n (joined todo),
        ap length c.first,
        length-append (joined c.whole) c.left,
        joined_none c.whole no_lines,
      ) in
      let rest : length c.left + (length (joined todo) - n) ≡ length (joined c.later) = omega (
        arith,
        ap length c.second,
        length-append c.left (drop n (joined todo)),
        length-drop n (joined todo),
      ) in
      elim ends [
        | inl full ↦ absurd (omega (arith, full, all_left, cut_small c.left c.later ls c.cut))
        | inr whole ↦ absurd (
            omega
              (arith, whole, rest, cut_strict c.left c.later c.cut (omega (arith, all_left, h))))
      ]
]

pub bind_some {ℓ κ μ} :
    {A : Type ℓ} {B : Type κ} {C : Type μ} (o : Option A) (g : A → B) (f : B → Option C)
    (h : A → Option C)
    → ((a : A) → f (g a) ≡ h a)
    → ((o >>= λ a. some (g a)) >>= f) ≡ (o >>= h)
bind_some none g f h e = refl
bind_some (some a) g f h e = e a

-- What a round leaves, with the state `st`.
abbrev pub after_round : List ℕ → List ℕ → List ℕ → Reading → State → Reading
after_round left kept got r st = record {
  buf = kept;
  offset = length left;
  rest = drop (length got) r.rest;
  state = st;
}
