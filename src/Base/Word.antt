-- ===== src/Base/Word.antt =====
-- Machine words in memory: little-endian bytes, and the signed reading of an `int`.
use Prim.Native.Nat.{ℕ, zero, suc, ◌+◌, ◌*◌, ◌-◌, ◌/◌, ◌%◌, ◌^◌, ◌<◌}
use mathlib.Core.Path.{◌≡◌, refl, ap}
use mathlib.Core.Bool.{Bool}
use mathlib.Core.List.{List, [], ◌∷◌}
use native.Mathlib.Omega.{arith}
use event_server.Base.Tests.{ltb, leb, if◌then◌else◌}
use event_server.Base.Lists.{length}

-- The object of `width` bytes that holds `v`, on the little-endian target.
unfoldable pub le_bytes : ℕ → ℕ → List ℕ
le_bytes zero v = []
le_bytes (suc width) v = v % 256 ∷ le_bytes width (v / 256)

unfoldable pub from_le : List ℕ → ℕ
from_le [] = 0
from_le (b ∷ bs) = b + 256 * from_le bs

pub length-le_bytes : (width v : ℕ) → length (le_bytes width v) ≡ width
unfolding le_bytes
length-le_bytes zero v = refl
length-le_bytes (suc width) v = ap suc (length-le_bytes width (v / 256))

pub from_le-le_bytes_2 : (v : ℕ) → v < 2 ^ 16 → from_le (le_bytes 2 v) ≡ v
unfolding from_le le_bytes
from_le-le_bytes_2 v h = omega arith

pub from_le-le_bytes_4 : (v : ℕ) → v < 2 ^ 32 → from_le (le_bytes 4 v) ≡ v
unfolding from_le le_bytes
from_le-le_bytes_4 v h = omega arith

pub from_le-le_bytes_8 : (v : ℕ) → v < 2 ^ 64 → from_le (le_bytes 8 v) ≡ v
unfolding from_le le_bytes
from_le-le_bytes_8 v h = omega arith

-- An `int` is its 32-bit pattern. `size_of_int` is its conversion to `size_t`, and `int_le` the
-- comparison of the signed values.
abbrev pub int_mod : ℕ
int_mod = 2 ^ 32

abbrev pub int_half : ℕ
int_half = 2 ^ 31

abbrev pub size_of_int : ℕ → ℕ
size_of_int l = if ltb l int_half then l else l + (2 ^ 64 - 2 ^ 32)

abbrev pub biased : ℕ → ℕ
biased l = if ltb l int_half then l + int_half else l - int_half

abbrev pub int_le : ℕ → ℕ → Bool
int_le a b = leb (biased a) (biased b)

pub le_bytes_one : (v : ℕ) → v < 256 → le_bytes 1 v ≡ v ∷ []
unfolding le_bytes
le_bytes_one v h = ap (λ b. b ∷ []) (omega arith)
