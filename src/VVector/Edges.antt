-- ===== src/VVector/Edges.antt =====
-- `erase` and `back`, which both look at the cell behind the last element.
use event_server.Base.{
  ℕ, ◌+◌, ◌-◌, ◌≤◌, ◌<◌, ◌≡◌, sym, ap, ap₂, take-append_add, take-append_le, ◌⊎◌, ◌∙◌, none, some,
  List, ◌++◌, arith, le-cases, inl, inr, length, length-take_of_le, length-drop, length-splice,
  take, drop, drop-take_add, splice, take-take_le,
}
use event_server.Base.Memory.{load, store, load_inside, load_outside, store_inside}
use event_server.VVector.{VVector, erase, contents}
use event_server.VVector.Holds.{IsValid}

module _ {ℓ} {A : Type ℓ} where
  erase_run :
      (pos : ℕ) (v : VVector A) {moved cells : List A}
      → load (pos + 1) (v.used - pos) v.cells ≡ some moved
      → store pos moved v.cells ≡ some cells
      → erase pos v ≡ some (record v { cells = cells; used = v.used - 1 })
  unfolding erase
  erase_run pos v e f = rw (e, f)

  erase_fault :
      (pos : ℕ) (v : VVector A) → load (pos + 1) (v.used - pos) v.cells ≡ none → erase pos v ≡ none
  unfolding erase
  erase_fault pos v e = rw e

  -- The elements but the one at `pos`.
  abbrev pub without : ℕ → List A → List A
  without pos xs = take pos xs ++ drop (pos + 1) xs

  moved_over :
      (pos k : ℕ) (cells : List A)
      → pos + k + 1 < length cells
      → take (pos + k) (splice pos (take (k + 1) (drop (pos + 1) cells)) cells)
        ≡ without pos (take (pos + k + 1) cells)
  moved_over pos k cells h =
      ap (λ i. take (i + k) (splice pos moved cells)) (sym before)
      ∙ take-append_add k (take pos cells) (moved ++ drop (pos + length moved) cells)
      ∙ ap (λ l. take pos cells ++ l)
          (take-append_le k moved _ (omega (arith, size))
            ∙ take-take_le k (k + 1) rest (omega arith))
      ∙ sym (
          ap₂ (λ l m. l ++ m) (take-take_le pos (pos + k + 1) cells (omega arith))
            (ap (λ i. drop (pos + 1) (take i cells)) (omega arith)
              ∙ drop-take_add (pos + 1) k cells))
    where
      rest : List A
      rest = drop (pos + 1) cells

      moved : List A
      moved = take (k + 1) rest

      before : length (take pos cells) ≡ pos
      before = length-take_of_le pos cells (omega arith)

      size : length moved ≡ k + 1
      size = length-take_of_le (k + 1) rest (omega (arith, length-drop (pos + 1) cells))

  erased :
      (pos : ℕ) (v : VVector A)
      → IsValid v
      → pos < v.used
      → v.used < v.limit
      → (w : VVector A) × (erase pos v ≡ some w)
        × IsValid w
        × (contents w ≡ without pos (contents v))
  unfolding contents
  erased pos v ok h free =
      let k : ℕ = v.used - pos - 1 in
      let moved : List A = take (v.used - pos) (drop (pos + 1) v.cells) in
      let size : length moved ≡ v.used - pos =
        length-take_of_le (v.used - pos) (drop (pos + 1) v.cells)
          (omega (arith, length-drop (pos + 1) v.cells, ok.room)) in
      let fits : pos + length moved ≤ length v.cells = omega (arith, size, ok.room) in
      let count : v.used ≡ pos + k + 1 = omega arith in
      let width : v.used - pos ≡ k + 1 = omega arith in
      (
        record v { cells = splice pos moved v.cells; used = v.used - 1 },
        erase_run pos v (load_inside (pos + 1) (v.used - pos) v.cells (omega (arith, ok.room)))
            (store_inside pos moved v.cells fits),
        record { room = length-splice pos moved v.cells fits ∙ ok.room; within = omega arith },
        ap₂ (λ i n. take i (splice pos (take n (drop (pos + 1) v.cells)) v.cells)) (omega arith)
              width
            ∙ moved_over pos k v.cells (omega (arith, ok.room))
            ∙ ap (λ i. without pos (take i v.cells)) (sym count),
      )

  -- In a well-formed vector with a free cell, `erase` takes out the element at the place it is given
  -- and leaves the others in their order. In a full one it reads behind the array.
  pub erase_lem :
      (pos : ℕ) (v : VVector A)
      → IsValid v
      → pos < v.used
      → ((v.used < v.limit)
          × (w : VVector A) × (erase pos v ≡ some w)
          × IsValid w
          × (contents w ≡ without pos (contents v)))
        ⊎ ((v.used ≡ v.limit) × (erase pos v ≡ none))
  erase_lem pos v ok h = elim (le-cases v.limit v.used) [
    | inl full ↦ inr (
      omega (arith, ok.within),
      erase_fault pos v
          (load_outside (pos + 1) (v.used - pos) v.cells (omega (arith, ok.room, ok.within))),
    )
    | inr free ↦ let (w, e, kept, same) = erased pos v ok h free in inl (free, w, e, kept, same)
  ]
