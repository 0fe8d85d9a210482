-- ===== src/Crc.antt =====
-- lae/source/LuaLXZMessage.cpp, `CRC16`: the two tables and the loop.
pub mod Tables
pub mod Bitwise
mod Tests
use event_server.Base.{
  ℕ, zero, suc, ◌+◌, ◌*◌, ◌%◌, ◌^◌, bit_xor, Option, none, some, List, [], ◌∷◌, get_elem?,
}
use event_server.Base.Memory.{◌>>=◌}
use Tables.{crc_hi, crc_lo}

-- The `while` loop, with `len` rounds left; `msg` is what `puchMsg` points to. The results are
-- `uchCRCHi` and `uchCRCLo`.
unfoldable pub crc_loop : List ℕ → ℕ → ℕ → ℕ → Option (ℕ × ℕ)
crc_loop msg zero hi lo = some (hi, lo)
crc_loop [] (suc len) hi lo = none
crc_loop (b ∷ msg) (suc len) hi lo = do
  h ← get_elem? crc_hi (bit_xor hi b)
  l ← get_elem? crc_lo (bit_xor hi b)
  crc_loop msg len (bit_xor lo h) l

-- `usDataLen` is an `unsigned short`.
unfoldable pub crc16 : List ℕ → ℕ → Option ℕ
crc16 msg len = do (hi, lo) ← crc_loop msg (len % 2 ^ 16) 0xFF 0xFF; some (lo * 2 ^ 8 + hi)
