-- ===== src/VVector/Holds.antt =====
-- A well-formed vector, and that `push_back` is what it says.
use event_server.Base.{
  ℕ, ◌+◌, ◌*◌, ◌-◌, ◌≤◌, ◌<◌, ◌≡◌, refl, true, ap, ◌∙◌, some, List, [], ◌∷◌, ◌++◌, arith, lt→ltb,
  ◌==◌, int_half, length, length-take_of_le, length-splice, take, take-splice_at, splice, le-cases,
  inl, inr,
}
use event_server.Base.Memory.{load, store, load_start, store_inside}
use event_server.VVector.{VVector, empty, next_limit, reserve, push_back, contents}

pub record IsValid {ℓ} {A : Type ℓ} (v : VVector A) : Type ℓ where
  pub room : length v.cells ≡ v.limit
  pub within : v.used ≤ v.limit

-- An array that has grown by doubling alone has no more than about twice the cells that it needs.
pub record IsSparse {ℓ} {A : Type ℓ} (v : VVector A) : Type ℓ where
  pub doubles : v.step ≡ 0
  pub few : v.limit ≤ 2 * v.used + 2

-- A vector with a free cell that has the same elements.
record Reserved {ℓ} {A : Type ℓ} (v w : VVector A) : Type ℓ where
  valid : IsValid w
  free : w.used < w.limit
  same : contents w ≡ contents v
  count : w.used ≡ v.used
  step : w.step ≡ v.step
  sparse : IsSparse v → IsSparse w

-- What `push_back` leaves.
pub record Pushed {ℓ} {A : Type ℓ} (t : A) (v w : VVector A) : Type ℓ where
  pub valid : IsValid w
  pub same : contents w ≡ contents v ++ t ∷ []
  pub used : w.used ≡ v.used + 1
  pub sparse : IsSparse v → IsSparse w

module _ {ℓ} {A : Type ℓ} (fresh : ℕ → List A) (sizes : (n : ℕ) → length (fresh n) ≡ n) where
  reserve_free : (v : VVector A) → v.used < v.limit → reserve fresh v ≡ some v
  unfolding reserve
  reserve_free v h = ground arith

  reserve_run :
      (v : VVector A) {old cells : List A}
      → v.used ≡ v.limit
      → next_limit fresh v < int_half
      → load 0 v.limit v.cells ≡ some old
      → store 0 old (fresh (next_limit fresh v)) ≡ some cells
      → reserve fresh v
        ≡ some (record v { cells = cells; used = v.limit; limit = next_limit fresh v })
  unfolding reserve
  reserve_run v e h f g = rw (full, lt→ltb (next_limit fresh v) int_half h, f, g)
    where
      full : (v.limit - v.used == 0) ≡ true
      full = ground arith

  next_limit_grows : (v : VVector A) → v.limit < next_limit fresh v
  unfolding next_limit
  next_limit_grows v = ground arith

  next_limit_double : (v : VVector A) → v.step ≡ 0 → next_limit fresh v ≡ 2 * (v.limit + 1)
  unfolding next_limit
  next_limit_double v e = rw e refl

  pub next_limit_sparse : (v : VVector A) → IsSparse v → next_limit fresh v ≤ 4 * v.used + 6
  next_limit_sparse v h = omega (arith, h.few, next_limit_double v h.doubles)

  reserve_lem :
      (v : VVector A)
      → IsValid v
      → next_limit fresh v < int_half
      → (w : VVector A) × (reserve fresh v ≡ some w) × Reserved v w
  unfolding contents
  reserve_lem v ok h = elim (le-cases v.limit v.used) [
    | inl full ↦ enlarged full
    | inr free ↦ (
      v,
      reserve_free v free,
      record { valid = ok; free = free; same = refl; count = refl; step = refl; sparse = λ h. h },
    )
  ]
    where
      n : ℕ
      n = next_limit fresh v

      old : List A
      old = take v.limit v.cells

      cells : List A
      cells = splice 0 old (fresh n)

      enlarged : v.limit ≤ v.used → (w : VVector A) × (reserve fresh v ≡ some w) × Reserved v w
      enlarged full = (
        record v { cells = cells; used = v.limit; limit = n },
        reserve_run v (omega (arith, full, ok.within)) h
            (load_start v.limit v.cells (omega (arith, ok.room)))
            (store_inside 0 old (fresh n) fits),
        record {
          valid = record {
            room = length-splice 0 old (fresh n) fits ∙ sizes n;
            within = omega (arith, next_limit_grows v);
          };
          free = next_limit_grows v;
          same = kept ∙ ap (λ k. take k v.cells) (omega (arith, full, ok.within));
          count = omega (arith, full, ok.within);
          step = refl;
          sparse = λ h. record {
            doubles = h.doubles;
            few = omega (arith, next_limit_double v h.doubles);
          };
        },
      )
        where
          old_length : length old ≡ v.limit
          old_length = length-take_of_le v.limit v.cells (omega (arith, ok.room))

          fits : 0 + length old ≤ length (fresh n)
          fits = omega (arith, old_length, sizes n, next_limit_grows v)

          kept : take v.limit cells ≡ old
          kept =
              ap (λ k. take k cells) (omega (arith, old_length))
              ∙ take-splice_at 0 old (fresh n) (omega arith)

  push_run :
      (t : A) (v : VVector A) {w : VVector A} {cells : List A}
      → reserve fresh v ≡ some w
      → store w.used (t ∷ []) w.cells ≡ some cells
      → push_back fresh t v ≡ some (record w { cells = cells; used = w.used + 1 })
  unfolding push_back
  push_run t v e f = rw (e, f)

  pub push_back-Pushed :
      (t : A) (v : VVector A)
      → IsValid v
      → next_limit fresh v < int_half
      → (w : VVector A) × (push_back fresh t v ≡ some w) × Pushed t v w
  unfolding contents
  push_back-Pushed t v ok h =
      let (w, e, r) = reserve_lem v ok h in
      let fits : w.used + 1 ≤ length w.cells = omega (arith, r.free, r.valid.room) in
      (
        record w { cells = splice w.used (t ∷ []) w.cells; used = w.used + 1 },
        push_run t v e (store_inside w.used (t ∷ []) w.cells fits),
        record {
          valid = record {
            room = length-splice w.used (t ∷ []) w.cells fits ∙ r.valid.room;
            within = omega (arith, r.free);
          };
          same =
              take-splice_at w.used (t ∷ []) w.cells (omega (arith, fits))
              ∙ ap (λ l. l ++ t ∷ []) r.same;
          used = ap (λ n. n + 1) r.count;
          sparse = λ sp. record {
            doubles = (r.sparse sp).doubles;
            few = omega (arith, (r.sparse sp).few);
          };
        },
      )

  -- On a well-formed vector, `push_back` succeeds, leaves a well-formed one, and puts the element
  -- behind those that were there, whether or not the array has to grow. An `int` holds the size of the
  -- array that it grows to.
  pub push_back_lem :
      (t : A) (v : VVector A)
      → IsValid v
      → next_limit fresh v < int_half
      → (w : VVector A) × (push_back fresh t v ≡ some w)
        × IsValid w
        × (contents w ≡ contents v ++ t ∷ [])
  push_back_lem t v ok h = let (w, e, r) = push_back-Pushed t v ok h in (w, e, r.valid, r.same)

  pub empty-IsValid : IsValid (empty fresh)
  unfolding empty
  empty-IsValid = record { room = sizes 1; within = omega arith }

  pub empty-IsSparse : IsSparse (empty fresh)
  unfolding empty
  empty-IsSparse = record { doubles = refl; few = omega arith }

  pub contents-empty : contents (empty fresh) ≡ []
  unfolding contents empty
  contents-empty = refl
