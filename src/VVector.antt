-- ===== src/VVector.antt =====
-- lae/include/vvector.h: a growing array. Cells are copied as memory, pointers as the program uses it.
pub mod Holds
pub mod Edges
mod Tests
use event_server.Base.{
  ℕ, ◌+◌, ◌*◌, ◌-◌, Bool, Option, none, some, List, [], ◌∷◌, ltb, ◌==◌, if◌then◌else◌, int_half,
  length, take, get_elem?,
}
use event_server.Base.Memory.{◌>>=◌, load, store}

-- `cells` is the memory that `_head` points to; `used` and `limit` are `_end` and `_tail` counted from
-- there. `step` is `_grown`, 0 for what is not positive.
pub record VVector {ℓ} (A : Type ℓ) : Type ℓ where
  pub cells : List A
  pub used : ℕ
  pub limit : ℕ
  pub step : ℕ

-- `fresh n` is the memory for `n` cells that `operator new` gives.
module _ {ℓ} {A : Type ℓ} (fresh : ℕ → List A) where
  unfoldable pub empty : VVector A
  empty = record { cells = fresh 1; used = 0; limit = 1; step = 0 }

  unfoldable pub with_room : ℕ → VVector A
  with_room num = record { cells = fresh num; used = 0; limit = num; step = 0 }

  -- The size of the new array, an `int`.
  unfoldable pub next_limit : VVector A → ℕ
  next_limit v = if v.step == 0 then 2 * (v.limit + 1) else v.step + v.limit

  -- A size that is no positive `int` makes `operator new` throw.
  unfoldable pub reserve : VVector A → Option (VVector A)
  reserve v =
      if v.limit - v.used == 0
      then (if ltb (next_limit v) int_half
          then (do
            old ← load 0 v.limit v.cells
            cells ← store 0 old (fresh (next_limit v))
            some (record v { cells = cells; used = v.limit; limit = next_limit v }))
          else none)
      else some v

  unfoldable pub push_back : A → VVector A → Option (VVector A)
  push_back t v = do
    v1 ← reserve v
    cells ← store v1.used (t ∷ []) v1.cells
    some (record v1 { cells = cells; used = v1.used + 1 })

module _ {ℓ} {A : Type ℓ} where
  -- `operator[]`
  unfoldable pub at : ℕ → VVector A → Option A
  at pos v = get_elem? v.cells pos

  unfoldable pub size : VVector A → ℕ
  size v = v.used

  unfoldable pub capcity : VVector A → ℕ
  capcity v = v.limit - v.used

  -- `empty()`
  unfoldable pub is_empty : VVector A → Bool
  is_empty v = v.used == 0

  unfoldable pub front : VVector A → Option A
  front v = get_elem? v.cells 0

  unfoldable pub grown : ℕ → VVector A → VVector A
  grown n v = record v { step = n }

  unfoldable pub clear : VVector A → VVector A
  clear v = record v { used = 0 }

  -- `back()` reads the cell that `_end` points to.
  unfoldable pub back : VVector A → Option A
  back v = get_elem? v.cells v.used

  -- `erase` moves `_end - pos` cells, from the one behind `pos` on.
  unfoldable pub erase : ℕ → VVector A → Option (VVector A)
  erase pos v = do
    moved ← load (pos + 1) (v.used - pos) v.cells
    cells ← store pos moved v.cells
    some (record v { cells = cells; used = v.used - 1 })

  unfoldable pub swap : VVector A → VVector A → VVector A × VVector A
  swap v w = (w, v)

  -- The elements from `begin()` to `end()`.
  unfoldable pub contents : VVector A → List A
  contents v = take v.used v.cells
