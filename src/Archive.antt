-- ===== src/Archive.antt =====
-- lae/source/IArchive.cpp and lae/include/IArchive.h: serialising values into and out of a stream.
-- The stream is a `MemFile`, the only `CISerial` of the program. Every integer is its bit pattern;
-- the host is little-endian, `int` has 32 bits and `long` 64.
pub mod Swap
pub mod Serial
pub mod Transfer
pub mod RoundTrip
pub mod Sent
pub mod Reads
pub mod Texts
pub mod Strings
pub mod Positions
pub mod Bounded
pub mod Tests
use event_server.Base.{
  ℕ, ◌+◌, ◌-◌, ◌*◌, ◌/◌, ◌%◌, ◌^◌, Bool, true, false, not, ◌&&◌, ◌||◌, Option, none, some, List, [],
  ◌∷◌, ltb, leb, ◌==◌, if◌then◌else◌, length, replicate, le_bytes, from_le, size_of_int, int_le,
  int_half, int_mod,
}
use event_server.Base.Memory.{◌>>=◌, ◌>>◌, store}
use event_server.MemFile
use event_server.MemFile.{MemFile, Reply, done, minus_one}

-- `ISerialMode`; `m_SerialFunc` is `Read` in `sm_read` and `Write` in `sm_write`.
pub data Mode : Type 0 where
  sm_read sm_write : Mode

-- `swapped` says which of the two sets of functions `Short_Swap` and the others point to.
pub record Archive : Type 0 where
  pub stream : MemFile
  pub mode : Mode
  pub swapped : Bool
  pub addresses : List ℕ
  pub index : ℕ
  pub version : ℕ
  pub exe_cnt : ℕ

-- `ShortSwap`, `LongSwap`, `LongLongSwap`, on bit patterns.
unfoldable pub short_swap : ℕ → ℕ
short_swap l = l % 256 * 2 ^ 8 + l / 2 ^ 8 % 256

unfoldable pub long_swap : ℕ → ℕ
long_swap l =
    l % 256 * 2 ^ 24 + l / 2 ^ 8 % 256 * 2 ^ 16 + l / 2 ^ 16 % 256 * 2 ^ 8 + l / 2 ^ 24 % 256

unfoldable pub long_long_swap : ℕ → ℕ
long_long_swap l =
    l % 256 * 2 ^ 56
    + l / 2 ^ 8 % 256 * 2 ^ 48
    + l / 2 ^ 16 % 256 * 2 ^ 40
    + l / 2 ^ 24 % 256 * 2 ^ 32
    + l / 2 ^ 32 % 256 * 2 ^ 24
    + l / 2 ^ 40 % 256 * 2 ^ 16
    + l / 2 ^ 48 % 256 * 2 ^ 8
    + l / 2 ^ 56 % 256

-- A call through one of the function pointers.
unfoldable pub through : (ℕ → ℕ) → Archive → ℕ → ℕ
through swap a v = if a.swapped then swap v else v

-- The first byte in memory of the `long` 0x12345678.
abbrev pub host_byte : ℕ
host_byte = 0x78

unfoldable pub set_little_endian : Bool → Archive → Archive
set_little_endian little a = record a {
  swapped = (little && (host_byte == 0x12)) || (not little && (host_byte == 0x78));
}

-- The constructor; the stream comes with `initial`.
unfoldable pub fresh : MemFile → Archive
fresh stream = record {
  stream = stream;
  mode = sm_read;
  swapped = false;
  addresses = replicate 10 0;
  index = 0;
  version = 15;
  exe_cnt = 0;
}

-- `setMode` goes back to the start of the stream; so does `Initial`, on the stream it is given.
unfoldable pub set_mode : Mode → Archive → Archive
set_mode mode a = record a { stream = MemFile.set_pos 0 a.stream; mode = mode }

-- `setPos`
unfoldable pub set_pos : ℕ → Archive → Archive
set_pos pos a = record a { stream = MemFile.set_pos pos a.stream }

unfoldable pub initial : MemFile → Mode → Archive → Archive
initial stream mode a = record a { stream = MemFile.set_pos 0 stream; mode = mode }

-- `(m_pISerial->*m_SerialFunc)(&v, width)` in `sm_read`: the new value of `v` where the call
-- returns more than 0.
unfoldable pub fetch : ℕ → Archive → Option (Option ℕ × Archive)
fetch width a = do
  (reply, s) ← MemFile.read width a.stream
  let v : Option ℕ = elim reply [ done bytes ↦ some (from_le bytes) | minus_one ↦ none ]
  some (v, record a { stream = s })

-- The same call in `sm_write`; what it returns is not used.
unfoldable pub emit : ℕ → ℕ → Archive → Option Archive
emit width v a = do
  (_, s) ← MemFile.write (le_bytes width v) width a.stream
  some (record a { stream = s })
