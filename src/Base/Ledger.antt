-- ===== src/Base/Ledger.antt =====
-- What a program has allocated and not yet freed. To free what is not there is a fault.
use Prim.Native.Nat.{ℕ, suc, ◌+◌, ◌<◌}
use mathlib.Core.Path.{◌≡◌, refl, ap}
use mathlib.Core.Logic.{inl, inr}
use mathlib.Core.Bool.{false}
use mathlib.Core.Option.{Option, none, some}
use mathlib.Core.List.{List, [], ◌∷◌}
use native.Mathlib.Omega.{arith}
use event_server.Base.Tests.{◌==◌, if◌then◌else◌, Bool-cases, ==_iff}
use event_server.Base.Memory.{◌>>=◌}

-- `next` is the handle that the next allocation gets.
pub record Ledger : Type 0 where
  pub next : ℕ
  pub live : List ℕ

unfoldable pub allocate : Ledger → ℕ × Ledger
allocate l = (l.next, record { next = suc l.next; live = l.next ∷ l.live })

unfoldable pub remove : ℕ → List ℕ → Option (List ℕ)
remove h [] = none
remove h (x ∷ xs) = if x == h then some xs else (do xs1 ← remove h xs; some (x ∷ xs1))

unfoldable pub free : ℕ → Ledger → Option Ledger
free h l = do live ← remove h l.live; some (record l { live = live })

-- `if (p) free(p);`
unfoldable pub free_if : Option ℕ → Ledger → Option Ledger
free_if none l = some l
free_if (some h) l = free h l

-- How often `k` is in a list.
unfoldable pub one : ℕ → ℕ → ℕ
one k h = if h == k then 1 else 0

abbrev pub count : ℕ → List ℕ → ℕ
count k [] = 0
count k (h ∷ hs) = one k h + count k hs

-- The live handles are those of a list, in any order.
unfoldable pub Balance : Ledger → List ℕ → Type 0
Balance l owned = (k : ℕ) → count k l.live ≡ count k owned

one_self : (h : ℕ) → one h h ≡ 1
unfolding one
one_self h = rw ((==_iff h h).1 refl)

pub allocate-Balance :
    (l : Ledger) (owned : List ℕ)
    → Balance l owned
    → Balance (allocate l).1 ((allocate l).0 ∷ owned)
unfolding Balance allocate
allocate-Balance l owned b k = omega (arith, b k)

one_other : (h x : ℕ) → (x == h) ≡ false → one h x ≡ 0
unfolding one
one_other h x e = rw e refl

remove_lem :
    (h : ℕ) (xs : List ℕ)
    → 0 < count h xs
    → (ys : List ℕ) × (remove h xs ≡ some ys) × ((k : ℕ) → count k xs ≡ one k h + count k ys)
unfolding remove
remove_lem h [] lt = absurd (omega arith)
remove_lem h (x ∷ xs) lt = elim (Bool-cases (x == h)) [
  | inl e ↦ (xs, rw e refl, λ k. ap (λ z. one k z + count k xs) ((==_iff x h).0 e))
  | inr e ↦
      let (ys, f, more) = remove_lem h xs (omega (arith, one_other h x e)) in
      (x ∷ ys, rw (e, f) refl, λ k. omega (arith, more k))
]

-- What is live can be freed, and the rest stays.
pub free-Balance :
    (h : ℕ) (l : Ledger) (owned : List ℕ)
    → Balance l (h ∷ owned)
    → (l' : Ledger) × (free h l ≡ some l') × Balance l' owned
unfolding Balance free
free-Balance h l owned b =
    let (live, e, more) = remove_lem h l.live (omega (arith, b h, one_self h)) in
    (record l { live = live }, rw e refl, λ k. omega (arith, b k, more k))

-- What is not live cannot.
remove_gone : (h : ℕ) (xs : List ℕ) → count h xs ≡ 0 → remove h xs ≡ none
unfolding remove
remove_gone h [] e = refl
remove_gone h (x ∷ xs) e = elim (Bool-cases (x == h)) [
  | inl f ↦ absurd (omega (arith, one_self h, ap (one h) ((==_iff x h).0 f)))
  | inr f ↦ rw (f, remove_gone h xs (omega arith)) refl
]

pub free_gone : (h : ℕ) (l : Ledger) → count h l.live ≡ 0 → free h l ≡ none
unfolding free
free_gone h l e = rw (remove_gone h l.live e) refl

-- The handles of a pointer that may be null.
abbrev pub if_some : Option ℕ → List ℕ → List ℕ
if_some none hs = hs
if_some (some h) hs = h ∷ hs

pub free_if-Balance :
    (o : Option ℕ) (l : Ledger) (owned : List ℕ)
    → Balance l (if_some o owned)
    → (l' : Ledger) × (free_if o l ≡ some l') × Balance l' owned
unfolding free_if
free_if-Balance none l owned b = (l, refl, b)
free_if-Balance (some h) l owned b = free-Balance h l owned b

pub Balance-swap :
    (l : Ledger) (h x : ℕ) (owned : List ℕ) → Balance l (h ∷ x ∷ owned) → Balance l (x ∷ h ∷ owned)
unfolding Balance
Balance-swap l h x owned b k = omega (arith, b k)
