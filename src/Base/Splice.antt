-- ===== src/Base/Splice.antt =====
-- What a copy into an array leaves: the cells before it, the copied ones, and those after it.
use Prim.Native.Nat.{ℕ, ◌+◌, ◌≤◌, ◌-◌}
use mathlib.Core.Path.{◌≡◌, sym, ap, ap₂, ◌∙◌}
use mathlib.Core.List.{List, [], ◌++◌, append-nil, append_assoc}
use native.Mathlib.Omega.{arith}
use event_server.Base.Lists.{
  length, take, drop, length-append, length-take, length-drop, take-append_le, take-append_add,
  take-take_le, take-append-drop, drop_all, take_all, drop-take_add, drop-append_add, drop-drop,
}

module _ {ℓ} {A : Type ℓ} where
  abbrev pub splice : ℕ → List A → List A → List A
  splice off src dst = take off dst ++ (src ++ drop (off + length src) dst)

  pub length-splice :
      (off : ℕ) (src dst : List A)
      → off + length src ≤ length dst
      → length (splice off src dst) ≡ length dst
  length-splice off src dst h = omega (
    arith,
    length-append (take off dst) (src ++ drop (off + length src) dst),
    length-append src (drop (off + length src) dst),
    length-take off dst,
    length-drop (off + length src) dst,
  )

  pub length-take_of_le : (n : ℕ) (xs : List A) → n ≤ length xs → length (take n xs) ≡ n
  length-take_of_le n xs h = omega (arith, length-take n xs)

  -- A prefix that ends before the copied cells.
  pub take-splice_before :
      (n off : ℕ) (src dst : List A)
      → n ≤ off
      → off ≤ length dst
      → take n (splice off src dst) ≡ take n dst
  take-splice_before n off src dst h k =
      take-append_le n (take off dst) _ (omega (arith, length-take off dst))
      ∙ take-take_le n off dst h

  -- A prefix that ends with the copied cells.
  pub take-splice_at :
      (off : ℕ) (src dst : List A)
      → off ≤ length dst
      → take (off + length src) (splice off src dst) ≡ take off dst ++ src
  take-splice_at off src dst h =
      ap (λ k. take (k + length src) (splice off src dst)) (sym (length-take_of_le off dst h))
      ∙ take-append_add (length src) (take off dst) _
      ∙ ap (◌++◌ (take off dst)) (
          take-append_le (length src) src _ (omega arith) ∙ take_all (length src) src (omega arith))

  -- A copy that ends the array, or goes beyond what it held.
  pub splice_end :
      (off : ℕ) (src dst : List A)
      → length dst ≤ off + length src
      → splice off src dst ≡ take off dst ++ src
  splice_end off src dst h =
      ap (λ r. take off dst ++ (src ++ r)) (drop_all (off + length src) dst h)
      ∙ ap (◌++◌ (take off dst)) (append-nil src)

  take-splice_add :
      (off k : ℕ) (src dst : List A)
      → off ≤ length dst
      → take (off + (length src + k)) (splice off src dst)
        ≡ splice off src (take (off + length src + k) dst)
  take-splice_add off k src dst h =
      ap (λ j. take (j + (length src + k)) (splice off src dst)) (sym (length-take_of_le off dst h))
      ∙ take-append_add (length src + k) (take off dst) _
      ∙ ap₂ ◌++◌ (sym (take-take_le off (off + length src + k) dst (omega arith)))
          (take-append_add k src _ ∙ ap (◌++◌ src) (sym (drop-take_add (off + length src) k dst)))

  -- A prefix that holds all the copied cells is copied into by itself.
  pub take-splice_after :
      (n off : ℕ) (src dst : List A)
      → off + length src ≤ n
      → off ≤ length dst
      → take n (splice off src dst) ≡ splice off src (take n dst)
  take-splice_after n off src dst h k =
      ap (λ j. take j (splice off src dst)) e
      ∙ take-splice_add off (n - (off + length src)) src dst k
      ∙ ap (λ j. splice off src (take j dst)) e'
    where
      e : n ≡ off + (length src + (n - (off + length src)))
      e = omega arith

      e' : off + length src + (n - (off + length src)) ≡ n
      e' = omega arith

  -- A piece of a prefix is a piece of the whole.
  pub slice-take :
      (off n c : ℕ) (xs : List A)
      → off + n ≤ c
      → take n (drop off (take c xs)) ≡ take n (drop off xs)
  slice-take off n c xs h =
      ap (λ j. take n (drop off (take j xs))) e
      ∙ ap (take n) (drop-take_add off (c - off) xs)
      ∙ take-take_le n (c - off) (drop off xs) (omega arith)
    where
      e : c ≡ off + (c - off)
      e = omega arith

  drop-splice :
      (off k : ℕ) (src dst : List A)
      → off ≤ length dst
      → drop (off + (length src + k)) (splice off src dst) ≡ drop (off + length src + k) dst
  drop-splice off k src dst h =
      ap (λ j. drop (j + (length src + k)) (splice off src dst)) (sym (length-take_of_le off dst h))
      ∙ drop-append_add (length src + k) (take off dst) _
      ∙ drop-append_add k src _
      ∙ drop-drop (off + length src) k dst

  -- Two copies, the second where the first ended, are one.
  pub splice-splice :
      (off : ℕ) (s t dst : List A)
      → off ≤ length dst
      → splice (off + length s) t (splice off s dst) ≡ splice off (s ++ t) dst
  splice-splice off s t dst h =
      ap₂ (λ l r. l ++ (t ++ r)) (take-splice_at off s dst h)
        (ap (λ k. drop k (splice off s dst)) e
          ∙ drop-splice off (length t) s dst h
          ∙ ap (λ k. drop k dst) e')
      ∙ append_assoc (take off dst) s _
      ∙ ap (◌++◌ (take off dst)) (sym (append_assoc s t _))
    where
      e : off + length s + length t ≡ off + (length s + length t)
      e = omega arith

      e' : off + length s + length t ≡ off + length (s ++ t)
      e' = omega (arith, length-append s t)

  pub splice-nil : (off : ℕ) (dst : List A) → splice off [] dst ≡ dst
  splice-nil off dst = ap (λ k. take off dst ++ drop k dst) e ∙ take-append-drop off dst
    where
      e : off + 0 ≡ off
      e = omega arith
