-- ===== src/FastBuf.antt =====
-- lae/include/FastBufAlloc.h: a byte buffer with an inline array, and a heap array once it grows.
-- `T` is `char` or `unsigned char` wherever the program uses the template, so a cell is a byte and
-- `sizeof(T)` is 1. `new` is taken to succeed.
pub mod Holds
pub mod Append
pub mod Copies
mod Tests
use event_server.Base.{
  ℕ, ◌+◌, Option, none, some, List, [], ◌∷◌, ltb, leb, if◌then◌else◌, add_size, length, take,
  replicate,
}
use event_server.Base.Memory.{◌>>=◌, ◌>>◌, load, store}

pub record FastBuf : Type 0 where
  pub heapbuf : Option (List ℕ)
  pub arrbuf : List ℕ
  pub cp_len : ℕ
  pub alloc_len : ℕ

-- `cache` is the template's `maxcachesize`.
module _ (cache : ℕ) where
  -- The constructor.
  unfoldable pub empty : FastBuf
  empty = record { heapbuf = none; arrbuf = replicate (cache + 1) 0; cp_len = 0; alloc_len = cache }

  -- The array behind the pointer that `buf()` returns; `none` is a null pointer.
  unfoldable pub buf : FastBuf → Option (List ℕ)
  buf b = if ltb cache b.alloc_len then b.heapbuf else some b.arrbuf

  -- The buffer after the array behind `buf()` has been written to.
  unfoldable pub set_buf : FastBuf → List ℕ → FastBuf
  set_buf b bytes =
      if ltb cache b.alloc_len
      then record b { heapbuf = some bytes }
      else record b { arrbuf = bytes }

  -- `memcpy(buf() + off, src, length src)`
  unfoldable pub poke : ℕ → List ℕ → FastBuf → Option FastBuf
  poke off src b = do old ← buf b; bytes ← store off src old; some (set_buf b bytes)

  unfoldable pub setcplen : ℕ → FastBuf → Option FastBuf
  setcplen len b = poke len (0 ∷ []) (record b { cp_len = len })

  unfoldable pub release : FastBuf → FastBuf
  release b = record {
    heapbuf = none;
    arrbuf = replicate (length b.arrbuf) 0;
    cp_len = 0;
    alloc_len = cache;
  }

  -- A fresh heap array of `newsize + 1` zeros that takes over `count` cells of `old`.
  unfoldable pub reallocate : ℕ → List ℕ → ℕ → FastBuf → Option FastBuf
  reallocate newsize old count b = do
    kept ← load 0 count old
    fresh ← store 0 kept (replicate (add_size newsize 1) 0)
    some (record b { heapbuf = some fresh; alloc_len = newsize })

  unfoldable pub grow : ℕ → FastBuf → Option FastBuf
  unfolding reallocate
  grow newsize b = if leb newsize b.alloc_len then some b else elim b.heapbuf [
    | some heap ↦ reallocate newsize heap b.alloc_len b
    | none ↦ do old ← buf b; reallocate newsize old b.cp_len b
  ]

  -- `arr` is the memory that the argument points to.
  unfoldable pub append : List ℕ → ℕ → FastBuf → Option FastBuf
  append arr size b = do
    grown ← grow (add_size b.cp_len size) b
    src ← load 0 size arr
    copied ← poke grown.cp_len src grown
    setcplen (add_size copied.cp_len size) copied

  -- `cplen()` bytes of `buf()`: what the buffer is said to hold.
  unfoldable pub contents : FastBuf → List ℕ
  contents b = elim (buf b) [ none ↦ [] | some bytes ↦ take b.cp_len bytes ]

-- `operator =`. Where the source has no heap array, the target keeps its own, and its length.
unfoldable pub assign : FastBuf → FastBuf → Option FastBuf
assign target source = elim source.heapbuf [
  | none ↦ some (record target { arrbuf = source.arrbuf; cp_len = source.cp_len })
  | some heap ↦ do
    kept ← load 0 source.alloc_len heap
    fresh ← store 0 kept (replicate (add_size source.alloc_len 1) 0)
    some (record {
      heapbuf = some fresh;
      arrbuf = source.arrbuf;
      cp_len = source.cp_len;
      alloc_len = source.alloc_len;
    })
]

-- The copy constructor has the same body, over an object whose fields are not initialised: `raw`
-- is what its memory happened to hold.
unfoldable pub copy : FastBuf → FastBuf → Option FastBuf
copy raw source = elim source.heapbuf [
  | none ↦ some (record raw { arrbuf = source.arrbuf; cp_len = source.cp_len })
  | some heap ↦ do
    kept ← load 0 source.alloc_len heap
    fresh ← store 0 kept (replicate (add_size source.alloc_len 1) 0)
    some (record {
      heapbuf = some fresh;
      arrbuf = source.arrbuf;
      cp_len = source.cp_len;
      alloc_len = source.alloc_len;
    })
]
