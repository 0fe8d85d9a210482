-- ===== src/FastBuf/Tests.antt =====
-- The laws of `FastBufAlloc` at work on small buffers.
use event_server.Base.{ℕ, ◌≡◌, refl, none, some, List, [], ◌∷◌, ◌++◌, arith}
use event_server.FastBuf.{FastBuf, empty, grow, append, contents, assign, copy}
use event_server.FastBuf.Holds.{Holds, Grown, empty-Holds, grow_lem}
use event_server.FastBuf.Append.{contents-append}
use event_server.FastBuf.Copies.{copy_of_heap, assign_of_inline}

empty_cp : (empty 2).cp_len ≡ 0
unfolding empty
empty_cp = refl

-- A buffer with two inline cells that has grown to five.
abbrev large : FastBuf
large = record {
  heapbuf = some (1 ∷ 2 ∷ 3 ∷ 0 ∷ 0 ∷ 0 ∷ []);
  arrbuf = 0 ∷ 0 ∷ 0 ∷ [];
  cp_len = 3;
  alloc_len = 5;
}

abbrev small : FastBuf
small = record { heapbuf = none; arrbuf = 7 ∷ 8 ∷ 0 ∷ []; cp_len = 2; alloc_len = 2 }

large-Holds : Holds 2 large (1 ∷ 2 ∷ 3 ∷ 0 ∷ 0 ∷ 0 ∷ [])
large-Holds = ground arith

contents-append_example :
    (c : FastBuf) × (new : List ℕ) × (append 2 (4 ∷ 5 ∷ 6 ∷ []) 3 (empty 2) ≡ some c)
    × Holds 2 c new
    × (contents 2 c ≡ contents 2 (empty 2) ++ (4 ∷ 5 ∷ 6 ∷ []))
contents-append_example =
    contents-append 2 (4 ∷ 5 ∷ 6 ∷ []) 3 (empty-Holds 2) (omega arith) (omega (arith, empty_cp))

grow_example :
    (c : FastBuf) × (new : List ℕ) × (grow 2 9 large ≡ some c)
    × Grown 2 9 large (1 ∷ 2 ∷ 3 ∷ 0 ∷ 0 ∷ 0 ∷ []) c new
grow_example = grow_lem 2 9 large-Holds (omega arith)

copy_example :
    (c : FastBuf) × (new : List ℕ) × (copy small large ≡ some c)
    × (assign small large ≡ some c)
    × Holds 2 c new
    × (contents 2 c ≡ contents 2 large)
copy_example = copy_of_heap 2 large-Holds (omega arith) (omega arith) small

assign_example : (c : FastBuf) × (assign large small ≡ some c) × (contents 2 c ≡ 1 ∷ 2 ∷ [])
assign_example = assign_of_inline 2 small large-Holds (omega arith) refl
