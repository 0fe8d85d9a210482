-- ===== src/Base/Memory.antt =====
-- C memory: copies between arrays, where `none` is an access outside an array. Code that touches
-- memory runs in this `Option`, so a theorem that it returns `some` is one of memory safety.
use Prim.Native.Nat.{ℕ, ◌+◌, ◌≤◌, ◌<◌}
use mathlib.Core.Path.{◌≡◌, refl, ap₂, ◌∙◌}
use mathlib.Core.Option.{Option, none, some}
use mathlib.Core.List.{List, [], ◌∷◌, ◌++◌}
use native.Mathlib.Omega.{arith}
use event_server.Base.Tests.{leb, if◌then◌else◌, le→leb, lt→leb}
use event_server.Base.Lists.{
  length, take, drop, length-append, take-append_le, take_self, drop-append_add, get_elem?,
}
use event_server.Base.Splice.{splice}

infixl 5 ◌>>=◌ ◌>>◌
abbrev pub ◌>>=◌ {ℓ κ} : {A : Type ℓ} {B : Type κ} → Option A → (A → Option B) → Option B
none >>= f = none
some a >>= f = f a

abbrev pub ◌>>◌ {ℓ κ} : {A : Type ℓ} {B : Type κ} → Option A → Option B → Option B
m >> k = m >>= λ _. k

pub bind_none {ℓ κ} :
    {A : Type ℓ} {B : Type κ} (o : Option A) (f : A → Option B)
    → ((x : A) → f x ≡ none)
    → (o >>= f) ≡ none
bind_none none f h = refl
bind_none (some x) f h = h x

module _ {ℓ} {A : Type ℓ} where
  -- The source of a `memcpy` of `n` cells from `off` on.
  unfoldable pub load : ℕ → ℕ → List A → Option (List A)
  load off n src = if leb (off + n) (length src) then some (take n (drop off src)) else none

  -- Its destination.
  unfoldable pub store : ℕ → List A → List A → Option (List A)
  store off src dst =
      if leb (off + length src) (length dst) then some (splice off src dst) else none

  pub load_inside :
      (off n : ℕ) (src : List A)
      → off + n ≤ length src
      → load off n src ≡ some (take n (drop off src))
  unfolding load
  load_inside off n src h = rw (le→leb _ _ h)

  pub load_outside : (off n : ℕ) (src : List A) → length src < off + n → load off n src ≡ none
  unfolding load
  load_outside off n src h = rw (lt→leb _ _ h)

  pub store_inside :
      (off : ℕ) (src dst : List A)
      → off + length src ≤ length dst
      → store off src dst ≡ some (splice off src dst)
  unfolding store
  store_inside off src dst h = rw (le→leb _ _ h)

  pub store_outside :
      (off : ℕ) (src dst : List A) → length dst < off + length src → store off src dst ≡ none
  unfolding store
  store_outside off src dst h = rw (lt→leb _ _ h)

  pub load_start : (n : ℕ) (src : List A) → n ≤ length src → load 0 n src ≡ some (take n src)
  load_start n src h = load_inside 0 n src (omega arith)

  -- The cell behind `before`.
  pub get_at :
      (before after : List A) (b : A) → get_elem? (before ++ b ∷ after) (length before) ≡ some b
  get_at [] after b = refl
  get_at (x ∷ before) after b = get_at before after b

  pub store_at :
      (before after : List A) (b m : A)
      → store (length before) (m ∷ []) (before ++ b ∷ after) ≡ some (before ++ m ∷ after)
  store_at before after b m =
      store_inside (length before) (m ∷ []) (before ++ b ∷ after)
        (omega (arith, length-append before (b ∷ after)))
      ∙ ap₂ (λ k l. some (k ++ m ∷ l))
          (take-append_le (length before) before (b ∷ after) (omega arith) ∙ take_self before)
          (drop-append_add 1 before (b ∷ after))
