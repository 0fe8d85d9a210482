-- ===== src/Message/Hex.antt =====
-- `tohex`: the bytes of a message in hexadecimal, in a buffer of the caller's.
use event_server.Base.{
  ℕ, zero, suc, ◌+◌, ◌*◌, ◌/◌, ◌%◌, ◌≤◌, ◌<◌, ◌≡◌, refl, ap, ◌∙◌, Option, none, some, List, [], ◌∷◌,
  arith, length, length-replicate, length-splice, get_elem?, replicate, splice, leb, if◌then◌else◌,
  size_of_int, int_mod, int_half,
}
use event_server.Base.Memory.{◌>>=◌, bind_none, store, store_inside, store_outside}
use event_server.FastBuf
use event_server.MemFile
use event_server.Archive.{Archive}
use event_server.WebSocket.{cplen}

-- The character of a digit below 16.
unfoldable pub hex_digit : ℕ → ℕ
hex_digit d = if leb d 9 then 48 + d else 87 + d

-- `sprintf(&buf[i * 2], "%02x", byte)`, with the terminator.
unfoldable pub print_byte : ℕ → ℕ → List ℕ → Option (List ℕ)
print_byte i byte buf = store (2 * i) (hex_digit (byte / 16) ∷ hex_digit (byte % 16) ∷ 0 ∷ []) buf

-- The loop, `n` rounds from `i` on; `data` is the memory behind `getMsgPtr()`.
unfoldable pub print_bytes : ℕ → ℕ → List ℕ → List ℕ → Option (List ℕ)
print_bytes i zero bytes buf = some buf
print_bytes i (suc n) bytes buf = do
  byte ← get_elem? bytes i
  buf' ← print_byte i byte buf
  print_bytes (i + 1) n bytes buf'

-- `buf` is the memory that the caller passes, of `buf_size` bytes. The size of the message is an
-- `int` that becomes a `size_t`.
unfoldable pub tohex : List ℕ → ℕ → Archive → Option (List ℕ)
tohex buf buf_size a = do
  cleared ← store 0 (replicate buf_size 0) buf
  bytes ← FastBuf.buf MemFile.cache a.stream.fast_buf
  let half : ℕ = buf_size / 2
  let size : ℕ = size_of_int (cplen a % int_mod)
  print_bytes 0 (if leb size half then size else half) bytes cleared

print_byte_inside :
    (i byte : ℕ) (buf : List ℕ)
    → 2 * i + 3 ≤ length buf
    → (buf' : List ℕ) × (print_byte i byte buf ≡ some buf') × (length buf' ≡ length buf)
unfolding print_byte
print_byte_inside i byte buf h = (
  _,
  store_inside (2 * i) (hex_digit (byte / 16) ∷ hex_digit (byte % 16) ∷ 0 ∷ []) buf (omega arith),
  length-splice (2 * i) (hex_digit (byte / 16) ∷ hex_digit (byte % 16) ∷ 0 ∷ []) buf (omega arith),
)

print_byte_last :
    (i byte : ℕ) (buf : List ℕ) → length buf < 2 * i + 3 → print_byte i byte buf ≡ none
unfolding print_byte
print_byte_last i byte buf h =
    store_outside (2 * i) (hex_digit (byte / 16) ∷ hex_digit (byte % 16) ∷ 0 ∷ []) buf (omega arith)

-- A loop whose last round ends with the buffer leaves it by one byte, whatever it prints.
print_bytes_over :
    (n i : ℕ) (bytes buf : List ℕ)
    → length buf ≡ 2 * (i + n + 1)
    → print_bytes i (suc n) bytes buf ≡ none
unfolding print_bytes
print_bytes_over zero i bytes buf h =
    bind_none (get_elem? bytes i) _ (λ byte. rw (print_byte_last i byte buf (omega arith)) refl)
print_bytes_over (suc n) i bytes buf h = bind_none (get_elem? bytes i) _ (λ byte.
    let (buf', e, len) = print_byte_inside i byte buf (omega arith) in
    rw e (print_bytes_over n (i + 1) bytes buf' (omega (arith, len))))

tohex_run :
    (buf : List ℕ) (buf_size : ℕ) (a : Archive) {cleared : List ℕ} (n : ℕ)
    → store 0 (replicate buf_size 0) buf ≡ some cleared
    → (if leb (size_of_int (cplen a % int_mod)) (buf_size / 2)
        then size_of_int (cplen a % int_mod)
        else buf_size / 2)
      ≡ suc n
    → ((bytes : List ℕ) → print_bytes 0 (suc n) bytes cleared ≡ none)
    → tohex buf buf_size a ≡ none
unfolding tohex
tohex_run buf buf_size a {cleared} n e f g = rw e (
    bind_none (FastBuf.buf MemFile.cache a.stream.fast_buf) _
      (λ bytes. ap (λ k. print_bytes 0 k bytes cleared) f ∙ g bytes))

-- In a buffer of an even size, a message that fills it with its digits makes `tohex` write the
-- terminator of the last byte behind the buffer. The buffer has two bytes at least, and an `int`
-- holds the size of the message.
pub tohex-overruns :
    (buf : List ℕ) (half : ℕ) (a : Archive)
    → length buf ≡ 2 * (half + 1)
    → half + 1 ≤ cplen a
    → cplen a < int_half
    → tohex buf (2 * (half + 1)) a ≡ none
tohex-overruns buf half a h k small =
    tohex_run buf (2 * (half + 1)) a half (store_inside 0 zeros buf (omega (arith, size, h)))
      (ground arith)
      (λ bytes.
        print_bytes_over half 0 bytes (splice 0 zeros buf)
          (length-splice 0 zeros buf (omega (arith, size, h)) ∙ omega (arith, h)))
  where
    zeros : List ℕ
    zeros = replicate (2 * (half + 1)) 0

    size : length zeros ≡ 2 * (half + 1)
    size = length-replicate {A = ℕ} (2 * (half + 1)) 0
