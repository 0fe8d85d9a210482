-- ===== src/ByteMap.antt =====
-- lae/source/LuaLXZMessage.cpp, `MapKind`: bytes of a message replaced by those of a table.
pub mod Tables
pub mod Inverse
mod Tests
use event_server.Base.{
  ℕ, zero, suc, ◌+◌, Bool, true, false, Option, none, some, List, [], ◌∷◌, get_elem?, if◌then◌else◌,
}
use event_server.Base.Memory.{◌>>=◌, store}
use event_server.FastBuf
use event_server.MemFile
use event_server.Archive.{Archive}
use Tables.{send_byte_map, recv_byte_map}

-- The loop, `len` rounds from `from` on, over the array behind `getMsgPtr()`.
unfoldable pub map_bytes : List ℕ → ℕ → ℕ → List ℕ → Option (List ℕ)
map_bytes table from zero buffer = some buffer
map_bytes table from (suc len) buffer = do
  b ← get_elem? buffer from
  m ← get_elem? table b
  buffer1 ← store from (m ∷ []) buffer
  map_bytes table (from + 1) len buffer1

-- `mode` is false for sending. `from` and `len` are `LXZuint32`, so that their sum does not wrap.
unfoldable pub map_kind : ℕ → ℕ → Bool → Archive → Option Archive
map_kind from len mode a = do
  buffer ← FastBuf.buf MemFile.cache a.stream.fast_buf
  mapped ← map_bytes (if mode then recv_byte_map else send_byte_map) from len buffer
  some (record a {
    stream = record a.stream { fast_buf = FastBuf.set_buf MemFile.cache a.stream.fast_buf mapped };
  })
