-- ===== src/Config/Filled.antt =====
-- The buffer of `load`: what `fread` adds, and what is kept of it.
use event_server.Base.{
  ℕ, zero, suc, ◌+◌, ◌-◌, ◌≤◌, ◌<◌, ◌≡◌, refl, sym, ap, ◌∙◌, Bool, false, ◌&&◌, not, ◌⊎◌, inl, inr,
  Option, some, List, [], ◌∷◌, ◌++◌, append-nil, append_assoc, arith, ltb, ◌==◌, length,
  length-append, take, drop, get_elem?, splice, length-splice, take-splice_at, take-splice_before,
  le→ltb,
}
use event_server.Base.Memory.{store, store_inside}
use event_server.Config.Lines.{line_end}
use event_server.Config.Parsing.{fill, keep_left}
use event_server.Config.Pieces.{joined}

some_at : (xs ys : List ℕ) (n : ℕ) → n < length xs → (x : ℕ) × (get_elem? (xs ++ ys) n ≡ some x)
some_at [] ys n h = absurd (omega arith)
some_at (x ∷ xs) ys zero h = (x, refl)
some_at (x ∷ xs) ys (suc n) h = some_at xs ys n (omega arith)

get_elem?-append : (xs ys : List ℕ) (n : ℕ) → get_elem? (xs ++ ys) (n + length xs) ≡ get_elem? ys n
get_elem?-append [] ys n = ap (get_elem? ys) (omega arith)
get_elem?-append (x ∷ xs) ys n =
    ap (get_elem? (x ∷ (xs ++ ys))) (shifted (length xs)) ∙ get_elem?-append xs ys n
  where
    shifted : (k : ℕ) → n + suc k ≡ suc (n + k)
    shifted k = omega arith

at_end : (line ys : List ℕ) → joined (line ∷ []) ++ ys ≡ line ++ 13 ∷ 10 ∷ ys
at_end line ys = simp (append_assoc, append-nil)

-- A file of lines ends with the end of a line.
pub last_ten :
    (line : List ℕ) (more : List (List ℕ)) (ys : List ℕ)
    → get_elem? (joined (line ∷ more) ++ ys) (length (joined (line ∷ more)) - 1) ≡ some 10
last_ten line [] ys =
    ap (λ l. get_elem? l (length (joined (line ∷ [])) - 1)) (at_end line ys)
    ∙ ap (get_elem? (line ++ 13 ∷ 10 ∷ ys))
        (omega (arith, length-append (line ++ line_end) [], length-append line line_end))
    ∙ get_elem?-append line (13 ∷ 10 ∷ ys) 1
last_ten line (next ∷ more) ys =
    let whole : List ℕ = line ++ line_end in
    let rest : List ℕ = joined (next ∷ more) in
    ap (λ l. get_elem? l (length (whole ++ rest) - 1)) (append_assoc whole rest ys)
    ∙ ap (get_elem? (whole ++ (rest ++ ys))) (
        omega (
          arith,
          length-append whole rest,
          length-append (next ++ line_end) (joined more),
          length-append next line_end,
        ))
    ∙ get_elem?-append whole (rest ++ ys) (length rest - 1)
    ∙ last_ten next more ys

ten_quiet :
    (b : Bool) (o : Option ℕ) (last : ℕ)
    → o ≡ some last
    → o ≡ some 10
    → b && not (last == 10) ≡ false
ten_quiet b o last e f = ground arith

fill_run :
    (got : List ℕ) (offset : ℕ) (buf : List ℕ) {buf1 buf2 : List ℕ} {last : ℕ}
    → store offset got buf ≡ some buf1
    → store (offset + length got) (0 ∷ []) buf1 ≡ some buf2
    → get_elem? buf2 (offset + length got - 1) ≡ some last
    → ltb (offset + length got + 2) 1024 && not (last == 10) ≡ false
    → fill got offset buf ≡ some buf2
unfolding fill
fill_run got offset buf e f g h = rw (e, f, g, h) refl

-- Either the buffer is full, or the file is at its end, which is the end of a line.
pub fill_lem :
    (got : List ℕ) (offset : ℕ) (buf data_in : List ℕ)
    → length buf ≡ 2048
    → take offset buf ++ got ≡ data_in
    → offset + length got ≤ 1024
    → 0 < length got
    → length data_in ≡ offset + length got
    → (1022 ≤ offset + length got)
      ⊎ ((ys : List ℕ) → get_elem? (data_in ++ ys) (length data_in - 1) ≡ some 10)
    → (more : List ℕ) × (fill got offset buf ≡ some (data_in ++ 0 ∷ more))
      × (length (data_in ++ 0 ∷ more) ≡ 2048)
fill_lem got offset buf data_in size parts fits some_got same_size ends =
    let buf1 : List ℕ = splice offset got buf in
    let n : ℕ = offset + length got in
    let more : List ℕ = drop (n + 1) buf1 in
    let size1 : length buf1 ≡ length buf =
      length-splice offset got buf (omega (arith, size, fits)) in
    let size2 : length (splice n (0 ∷ []) buf1) ≡ length buf1 =
      length-splice n (0 ∷ []) buf1 (omega (arith, size, size1, fits)) in
    let shape : splice n (0 ∷ []) buf1 ≡ data_in ++ 0 ∷ more =
      ap (λ l. l ++ 0 ∷ more) (take-splice_at offset got buf (omega (arith, size, fits)) ∙ parts) in
    let stored : store n (0 ∷ []) buf1 ≡ some (data_in ++ 0 ∷ more) =
      store_inside n (0 ∷ []) buf1 (omega (arith, size, size1, fits)) ∙ ap some shape in
    let (last, e) = some_at data_in (0 ∷ more) (n - 1) (omega (arith, same_size, some_got)) in
    let quiet : ltb (n + 2) 1024 && not (last == 10) ≡ false = elim ends [
      | inl full ↦ rw (le→ltb (n + 2) 1024 (omega (arith, full))) refl
      | inr ten ↦
          ten_quiet (ltb (n + 2) 1024) _ last e
            (ap (λ k. get_elem? (data_in ++ 0 ∷ more) (k - 1)) (sym same_size) ∙ ten (0 ∷ more))
    ] in
    (
      more,
      fill_run got offset buf (store_inside offset got buf (omega (arith, size, fits))) stored e
          quiet,
      ap length (sym shape) ∙ size2 ∙ size1 ∙ size,
    )

keep_run :
    (left buf : List ℕ) {buf1 buf2 : List ℕ}
    → store 0 left buf ≡ some buf1
    → store (length left) (0 ∷ []) buf1 ≡ some buf2
    → keep_left left buf ≡ some buf2
unfolding keep_left
keep_run left buf e f = rw (e, f) refl

pub keep_left_lem :
    (left buf : List ℕ)
    → length buf ≡ 2048
    → length left ≤ 1022
    → (kept : List ℕ) × (keep_left left buf ≡ some kept)
      × (length kept ≡ 2048)
      × (take (length left) kept ≡ left)
keep_left_lem left buf size small =
    let buf1 : List ℕ = splice 0 left buf in
    let n : ℕ = length left in
    let size1 : length buf1 ≡ length buf = length-splice 0 left buf (omega (arith, size, small)) in
    (
      splice n (0 ∷ []) buf1,
      keep_run left buf (store_inside 0 left buf (omega (arith, size, small)))
          (store_inside n (0 ∷ []) buf1 (omega (arith, size, size1, small))),
      length-splice n (0 ∷ []) buf1 (omega (arith, size, size1, small)) ∙ size1 ∙ size,
      take-splice_before n n (0 ∷ []) buf1 (omega arith) (omega (arith, size, size1, small))
          ∙ ap (λ k. take k buf1) (omega arith)
          ∙ take-splice_at 0 left buf (omega arith),
    )
