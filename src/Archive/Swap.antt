-- ===== src/Archive/Swap.antt =====
-- The byte swaps of `CIArchive`, and when they are in use.
use event_server.Base.{ℕ, ◌^◌, ◌<◌, ◌≡◌, refl, Bool, true, false, not, arith, le_bytes}
use mathlib.Core.List.{reverse}
use event_server.Archive.{Archive, short_swap, long_swap, long_long_swap, set_little_endian}

-- The swap of a 16-bit word reverses its bytes in memory, and undoes itself.
pub short_swap_lem :
    (l : ℕ)
    → l < 2 ^ 16
    → (le_bytes 2 (short_swap l) ≡ reverse (le_bytes 2 l)) × (short_swap (short_swap l) ≡ l)
unfolding short_swap le_bytes
short_swap_lem l h = (ground arith, omega arith)

-- The swap of a 32-bit word reverses its bytes in memory, and undoes itself.
pub long_swap_lem :
    (l : ℕ)
    → l < 2 ^ 32
    → (le_bytes 4 (long_swap l) ≡ reverse (le_bytes 4 l)) × (long_swap (long_swap l) ≡ l)
unfolding long_swap le_bytes
long_swap_lem l h = (ground arith, omega arith)

-- The swap of a 64-bit word reverses its bytes in memory, and undoes itself.
pub long_long_swap_lem :
    (l : ℕ)
    → l < 2 ^ 64
    → (le_bytes 8 (long_long_swap l) ≡ reverse (le_bytes 8 l))
      × (long_long_swap (long_long_swap l) ≡ l)
unfolding long_long_swap le_bytes
long_long_swap_lem l h = (ground arith, omega arith)

pub set_little_endian_lem :
    (little : Bool) (a : Archive) → (set_little_endian little a).swapped ≡ not little
unfolding set_little_endian
set_little_endian_lem true a = refl
set_little_endian_lem false a = refl
