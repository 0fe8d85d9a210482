-- ===== src/MemFile.antt =====
-- lae/source/IMemFile.cpp and lae/include/IMemFile.h: a file in memory over a `FastBuf`.
-- `None` of the outer `Option` is an access outside an array.
pub mod Valid
pub mod Put
pub mod Write
pub mod Position
pub mod Tests
use event_server.Base.{
  ℕ, ◌+◌, ◌-◌, ◌*◌, ◌%◌, Option, none, some, List, [], ◌∷◌, ltb, leb, if◌then◌else◌, add_size,
  size_mod, int_mod, length,
}
use event_server.Base.Memory.{◌>>=◌, ◌>>◌, load}
use event_server.FastBuf
use event_server.FastBuf.{FastBuf}

pub data ErrorCode : Type 0 where
  err_no err_handle err_read err_write err_overlow : ErrorCode

pub record MemFile : Type 0 where
  pub fast_buf : FastBuf
  pub cur_pos : ℕ
  pub error_code : ErrorCode

-- What `Read` and `Write` return: the size (with the bytes that a read delivers), or -1.
pub data Reply {ℓ} (A : Type ℓ) : Type ℓ where
  done : A → Reply A
  minus_one : Reply A

-- `FastBufAlloc<unsigned char, 32>`
abbrev pub cache : ℕ
cache = 32

unfoldable pub empty : MemFile
empty = record { fast_buf = FastBuf.empty cache; cur_pos = 0; error_code = err_no }

-- `Release`; the argument of the source is not used.
unfoldable pub release : MemFile → MemFile
release m = record { fast_buf = FastBuf.release cache m.fast_buf; cur_pos = 0; error_code = err_no }

-- `Initial`: the position stays where it was.
unfoldable pub initial : List ℕ → ℕ → MemFile → Option MemFile
initial src len m = do
  grown ← FastBuf.grow cache len m.fast_buf
  bytes ← load 0 len src
  filled ← FastBuf.poke cache 0 bytes grown
  sized ← FastBuf.setcplen cache len filled
  some (record m { fast_buf = sized; error_code = err_no })

unfoldable pub read : ℕ → MemFile → Option (Reply (List ℕ) × MemFile)
read size m =
    if leb (add_size m.cur_pos size) m.fast_buf.cp_len
    then (do
      bytes ← FastBuf.buf cache m.fast_buf
      got ← load m.cur_pos size bytes
      some (done got, record m { cur_pos = add_size m.cur_pos size }))
    else some (minus_one, record m { error_code = err_read })

unfoldable pub set_pos : ℕ → MemFile → MemFile
set_pos pos m = if leb pos m.fast_buf.cp_len then record m { cur_pos = pos } else m

unfoldable pub remove_head_buffer : ℕ → MemFile → Option MemFile
remove_head_buffer size m =
    if leb m.fast_buf.cp_len size
    then (do
      cleared ← FastBuf.setcplen cache 0 m.fast_buf
      some (record m { fast_buf = cleared; cur_pos = 0 }))
    else (do
      bytes ← FastBuf.buf cache m.fast_buf
      rest ← load size (m.fast_buf.cp_len - size) bytes
      moved ← FastBuf.poke cache 0 rest m.fast_buf
      sized ← FastBuf.setcplen cache (moved.cp_len - size) moved
      some (record m { fast_buf = sized; cur_pos = 0 }))

-- The lines that both branches of `Write` end with.
unfoldable pub put : List ℕ → ℕ → MemFile → Option MemFile
put src size m = do
  bytes ← load 0 size src
  written ← FastBuf.poke cache m.cur_pos bytes m.fast_buf
  sized ←
      if ltb written.cp_len (add_size m.cur_pos size)
      then FastBuf.setcplen cache (add_size m.cur_pos size) written
      else some written
  some (record m { fast_buf = sized; cur_pos = add_size m.cur_pos size })

-- The size that `Write` asks for when there is no room.
abbrev pub enlarged : ℕ → ℕ → ℕ
enlarged alloc_len size = (add_size alloc_len size * 2) % size_mod

-- `src` is the memory that the argument points to. The size becomes an `int`.
unfoldable pub write : List ℕ → ℕ → MemFile → Option (Reply ℕ × MemFile)
write src size m =
    if leb (add_size m.cur_pos size) m.fast_buf.alloc_len
    then (do m' ← put src size m; some (done (size % int_mod), m'))
    else (do
      grown ← FastBuf.grow cache (enlarged m.fast_buf.alloc_len size) m.fast_buf
      m' ← put src size (record m { fast_buf = grown })
      some (minus_one, m'))

unfoldable pub contents : MemFile → List ℕ
contents m = FastBuf.contents cache m.fast_buf
