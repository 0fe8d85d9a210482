-- ===== src/Base/Xor.antt =====
-- Exclusive or of bytes: what one key adds, the same key takes away.
use Prim.Native.Nat.{ℕ, bit_xor, ◌<◌}
use mathlib.Core.Path.{◌≡◌, refl}
use mathlib.Core.Bool.{true}
use mathlib.Core.List.{List, [], ◌∷◌}
use event_server.Base.Tests.{passes_under, passes_under_at, ◌==◌, ==_iff, ltb, ltb→lt}

involution : passes_under (λ x. passes_under (λ k. bit_xor (bit_xor x k) k == x) 256) 256 ≡ true
unfolding passes_under
involution = refl

pub bit_xor_twice : (x k : ℕ) → x < 256 → k < 256 → bit_xor (bit_xor x k) k ≡ x
bit_xor_twice x k h h' =
    (==_iff _ x).0 (passes_under_at _ 256 k h' (passes_under_at _ 256 x h involution))

-- All the elements are bytes.
pub data Bytes : List ℕ → Type 0 where
  nil : Bytes []
  cons : (b : ℕ) (bs : List ℕ) → b < 256 → Bytes bs → Bytes (b ∷ bs)

closed : passes_under (λ x. passes_under (λ k. ltb (bit_xor x k) 256) 256) 256 ≡ true
unfolding passes_under
closed = refl

pub bit_xor_byte : (x k : ℕ) → x < 256 → k < 256 → bit_xor x k < 256
bit_xor_byte x k h h' = ltb→lt _ 256 (passes_under_at _ 256 k h' (passes_under_at _ 256 x h closed))
