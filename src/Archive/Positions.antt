-- ===== src/Archive/Positions.antt =====
-- `PushAddress` and `setIndexPos`: places in the stream that an archive keeps.
use event_server.Base.{
  ℕ, zero, suc, ◌+◌, ◌%◌, ◌≤◌, ◌<◌, ◌≡◌, sym, ap, ◌∙◌, Option, some, List, [], ◌∷◌, ◌++◌, arith,
  length, length-take_of_le, get_elem?, take, splice, ltb, lt→ltb, if◌then◌else◌, int_mod, int_half,
  size_of_int,
}
use event_server.Base.Memory.{◌>>=◌, store, store_inside}
use event_server.MemFile.{contents}
use event_server.MemFile.Valid.{IsValid}
use event_server.MemFile.Position.{set_pos_inside}
use event_server.Archive.{Archive, sm_read, sm_write, set_pos}

-- The position becomes an `int`.
unfoldable pub push_address : Archive → Option Archive
push_address a = elim a.mode [
  | sm_read ↦ some a
  | sm_write ↦
      if ltb a.index 10
      then (do
        addresses ← store a.index (a.stream.cur_pos % int_mod ∷ []) a.addresses
        some (record a { addresses = addresses; index = a.index + 1 }))
      else some a
]

-- An index that is no place of the array only leaves a note in a file.
unfoldable pub set_index_pos : ℕ → Archive → Option Archive
set_index_pos index a =
    if ltb index 10
    then (do pos ← get_elem? a.addresses index; some (set_pos (size_of_int pos) a))
    else some a

push_run :
    (a : Archive) {l : List ℕ}
    → a.mode ≡ sm_write
    → a.index < 10
    → store a.index (a.stream.cur_pos % int_mod ∷ []) a.addresses ≡ some l
    → push_address a ≡ some (record a { addresses = l; index = a.index + 1 })
unfolding push_address
push_run a m h e = ground (arith, e, lt→ltb a.index 10 h)

get_elem?-append_at :
    (xs : List ℕ) (y : ℕ) (ys : List ℕ) (n : ℕ)
    → n ≡ length xs
    → get_elem? (xs ++ y ∷ ys) n ≡ some y
get_elem?-append_at [] y ys n e = ap (get_elem? (y ∷ ys)) e
get_elem?-append_at (x ∷ xs) y ys zero e = absurd (omega arith)
get_elem?-append_at (x ∷ xs) y ys (suc n) e = get_elem?-append_at xs y ys n (omega arith)

index_run :
    (index : ℕ) (a : Archive) {pos : ℕ}
    → index < 10
    → get_elem? a.addresses index ≡ some pos
    → pos < int_half
    → set_index_pos index a ≡ some (set_pos pos a)
unfolding set_index_pos
index_run index a {pos} h e k =
    rw (lt→ltb index 10 h, e) (ap (λ p. some (set_pos p a)) (ground arith))

set_pos_run :
    (pos : ℕ) (a : Archive) {bytes : List ℕ}
    → IsValid a.stream bytes
    → pos ≤ length (contents a.stream)
    → set_pos pos a ≡ record a { stream = record a.stream { cur_pos = pos } }
unfolding set_pos
set_pos_run pos a v h = ap (λ m. record a { stream = m }) (set_pos_inside pos v h)

-- A place that a writing archive has pushed is the one that `setIndexPos` goes back to, in any
-- well-formed archive that has these places and whose contents reach that far. The archive has fewer
-- than ten places before, and an `int` holds the position.
pub set_index_pos-push_address :
    (a b : Archive) {bytes : List ℕ}
    → a.mode ≡ sm_write
    → length a.addresses ≡ 10
    → a.index < 10
    → a.stream.cur_pos < int_half
    → IsValid b.stream bytes
    → a.stream.cur_pos ≤ length (contents b.stream)
    → (l : List ℕ) × (push_address a ≡ some (record a { addresses = l; index = a.index + 1 }))
      × (set_index_pos a.index (record b { addresses = l })
          ≡ some
              (record b { addresses = l; stream = record b.stream { cur_pos = a.stream.cur_pos } }))
set_index_pos-push_address a b m ten h small v inside = (
  splice a.index (a.stream.cur_pos % int_mod ∷ []) a.addresses,
  push_run a m h (store_inside a.index _ a.addresses (omega (arith, ten))),
  index_run a.index _ h
        (get_elem?-append_at (take a.index a.addresses) _ _ a.index
            (sym (length-take_of_le a.index a.addresses (omega (arith, ten))))
          ∙ ap some narrow)
        small
      ∙ ap some (set_pos_run a.stream.cur_pos _ v inside),
)
  where
    narrow : a.stream.cur_pos % int_mod ≡ a.stream.cur_pos
    narrow = omega arith
