-- ===== src/Config/Pieces.antt =====
-- Lines with their ends: where the first one ends, and where a text of lines is cut.
use event_server.Base.{
  take-append-drop, ℕ, zero, suc, ◌+◌, ◌-◌, ◌≤◌, ◌≡◌, refl, sym, ap, ◌∙◌, false, le-cases, inl, inr,
  none, some, List, [], ◌∷◌, ◌++◌, append_assoc, arith, ◌==◌, length, length-append, take, drop,
  take-append_le, take-append_add, drop-append_add, drop-nil, take_all,
}
use event_server.Base.Memory.{◌>>=◌}
use event_server.Config.Lines.{line_end}
use event_server.Config.Parsing.{begins, find, until_zero}

-- A line without its end: no zeros, no carriage returns.
pub data IsPlain : List ℕ → Type 0 where
  plain_end : IsPlain []
  plain_more :
      (c : ℕ) (rest : List ℕ)
      → (c == 0) ≡ false
      → (c == 13) ≡ false
      → IsPlain rest
      → IsPlain (c ∷ rest)

pub data Lines : List (List ℕ) → Type 0 where
  no_line : Lines []
  one_line :
      (line : List ℕ) (more : List (List ℕ))
      → IsPlain line
      → length line ≤ 1021
      → Lines more
      → Lines (line ∷ more)

-- The file of these lines.
abbrev pub joined : List (List ℕ) → List ℕ
joined [] = []
joined (line ∷ more) = (line ++ line_end) ++ joined more

find_step :
    (c : ℕ) (text : List ℕ)
    → (c == 13) ≡ false
    → find line_end (c ∷ text) ≡ (find line_end text >>= λ k. some (suc k))
unfolding find begins
find_step c text h = rw (h, find) refl

pub find_line :
    (line rest : List ℕ)
    → IsPlain line
    → find line_end (line ++ 13 ∷ 10 ∷ rest) ≡ some (length line)
unfolding find begins
find_line [] rest plain_end = refl
find_line (c ∷ line) rest (plain_more _ _ z h p) =
    find_step c (line ++ 13 ∷ 10 ∷ rest) h
    ∙ ap (λ o. o >>= λ k. some (suc k)) (find_line line rest p)

-- A line that has not all come yet.
pub find_cut :
    (n : ℕ) (line : List ℕ)
    → IsPlain line
    → n ≤ length line + 1
    → find line_end (take n (line ++ line_end)) ≡ none
unfolding find begins
find_cut zero line p h = refl
find_cut (suc zero) [] plain_end h = refl
find_cut (suc (suc n)) [] plain_end h = absurd (omega arith)
find_cut (suc n) (c ∷ line) (plain_more _ _ z e p) h =
    find_step c (take n (line ++ line_end)) e
    ∙ ap (λ o. o >>= λ k. some (suc k)) (find_cut n line p (omega arith))

pub data NoZero : List ℕ → Type 0 where
  none_left : NoZero []
  one_more : (c : ℕ) (rest : List ℕ) → (c == 0) ≡ false → NoZero rest → NoZero (c ∷ rest)

pub NoZero-append : (xs ys : List ℕ) → NoZero xs → NoZero ys → NoZero (xs ++ ys)
NoZero-append [] ys none_left q = q
NoZero-append (x ∷ xs) ys (one_more _ _ e p) q = one_more x (xs ++ ys) e (NoZero-append xs ys p q)

pub NoZero-take : (n : ℕ) (xs : List ℕ) → NoZero xs → NoZero (take n xs)
NoZero-take zero xs p = none_left
NoZero-take (suc n) [] p = none_left
NoZero-take (suc n) (x ∷ xs) (one_more _ _ e p) = one_more x (take n xs) e (NoZero-take n xs p)

IsPlain-NoZero : (line : List ℕ) → IsPlain line → NoZero line
IsPlain-NoZero [] plain_end = none_left
IsPlain-NoZero (c ∷ line) (plain_more _ _ e h p) = one_more c line e (IsPlain-NoZero line p)

pub joined-NoZero : (lines : List (List ℕ)) → Lines lines → NoZero (joined lines)
joined-NoZero [] no_line = none_left
joined-NoZero (line ∷ more) (one_line _ _ p h ls) =
    NoZero-append (line ++ line_end) (joined more)
      (NoZero-append line line_end (IsPlain-NoZero line p)
        (one_more 13 _ refl (one_more 10 _ refl none_left)))
      (joined-NoZero more ls)

pub until_zero_lem : (text rest : List ℕ) → NoZero text → until_zero (text ++ 0 ∷ rest) ≡ text
unfolding until_zero
until_zero_lem [] rest none_left = refl
until_zero_lem (c ∷ text) rest (one_more _ _ e p) = rw (e, until_zero_lem text rest p) refl

-- What is left of lines behind those that are whole: a part of the next one.
pub data IsCut : List ℕ → List (List ℕ) → Type 0 where
  cut_end : IsCut [] []
  cut_in :
      (n : ℕ) (line : List ℕ) (more : List (List ℕ))
      → n ≤ length line + 1
      → IsCut (take n (line ++ line_end)) (line ∷ more)

pub record Cut (lines : List (List ℕ)) (n : ℕ) : Type 0 where
  pub whole : List (List ℕ)
  pub left : List ℕ
  pub later : List (List ℕ)
  pub first : take n (joined lines) ≡ joined whole ++ left
  pub second : left ++ drop n (joined lines) ≡ joined later
  pub all : lines ≡ whole ++ later
  pub cut : IsCut left later

pub cut_lem : (lines : List (List ℕ)) (n : ℕ) → n ≤ length (joined lines) → Cut lines n
cut_lem [] n h = record {
  whole = [];
  left = [];
  later = [];
  first = take_all n [] (omega arith);
  second = drop-nil n;
  all = refl;
  cut = cut_end;
}
cut_lem (line ∷ more) n h =
    let whole_line : List ℕ = line ++ line_end in
    let size : length whole_line ≡ length line + 2 = length-append line line_end in
    elim (le-cases n (length line + 1)) [
      | inl inside ↦
          let same : take n (joined (line ∷ more)) ≡ take n whole_line =
            take-append_le n whole_line (joined more) (omega (arith, size, inside)) in
          record {
            whole = [];
            left = take n whole_line;
            later = line ∷ more;
            first = same;
            second =
                ap (λ l. l ++ drop n (joined (line ∷ more))) (sym same)
                ∙ take-append-drop n (joined (line ∷ more));
            all = refl;
            cut = cut_in n line more inside;
          }
      | inr beyond ↦
          let m : ℕ = n - length whole_line in
          let parts : n ≡ length whole_line + m = omega (arith, size, beyond) in
          let c =
            cut_lem more m (omega (arith, h, parts, length-append whole_line (joined more))) in
          record {
            whole = line ∷ c.whole;
            left = c.left;
            later = c.later;
            first =
                ap (λ k. take k (joined (line ∷ more))) parts
                ∙ take-append_add m whole_line (joined more)
                ∙ ap (λ l. whole_line ++ l) c.first
                ∙ sym (append_assoc whole_line (joined c.whole) c.left);
            second =
                ap (λ k. c.left ++ drop k (joined (line ∷ more))) parts
                ∙ ap (λ l. c.left ++ l) (drop-append_add m whole_line (joined more))
                ∙ c.second;
            all = ap (λ l. line ∷ l) c.all;
            cut = c.cut;
          }
    ]
