-- ===== src/WebSocket/Decode.antt =====
-- `GetWebSocketFrame` on a whole frame: its header, its size and its payload.
use Prim.Native.Nat.{bit_or-bitwise}
use event_server.Base.{
  zero, suc, Bool, ℕ, ◌+◌, ◌*◌, ◌/◌, ◌%◌, ◌^◌, bit_or, ◌≤◌, ◌<◌, ◌≡◌, refl, ap, ap₂, ◌∙◌, subst,
  inl, inr, some, List, [], ◌∷◌, ◌++◌, arith, length, length-append, drop, drop-append_add,
  take-append_le, take_self, get_elem?, leb, ◌==◌, le→leb, lt→leb, le-cases, if◌then◌else◌,
  int_half, int_mod, int_le, true, false,
}
use event_server.MemFile.Valid.{IsValid, max_file}
use event_server.Archive.{Archive, sm_write}
use event_server.Archive.Serial.{write}
use event_server.Archive.Sent.{Sent, write-Sent}
use event_server.WebSocket.{payload_length, take_payload, get_web_socket_frame, result_type}
use event_server.WebSocket.Format.{opcodes, pick, frame_type_of, size_bytes, header}

zero-bit_or : (b : ℕ) → bit_or 0 b ≡ b
zero-bit_or b = bit_or-bitwise 0 b

-- The byte that holds the mask bit and the short size.
abbrev pub size_byte : ℕ → ℕ → ℕ
size_byte m n = m * 128 + (if leb n 125 then n else if leb n 65535 then 126 else 127)

module _ (shl_wide : ℕ → ℕ → ℕ) (shl_zero : (k : ℕ) → shl_wide 0 k ≡ 0) where
  parsed_short :
      (b0 m n : ℕ) (rest : List ℕ)
      → n ≤ 125
      → payload_length shl_wide (b0 ∷ (m * 128 + n) ∷ rest) n ≡ some (n, 2)
  unfolding payload_length
  parsed_short b0 m n rest h = rw (le→leb n 125 h)

  parsed_medium :
      (b0 b1 n : ℕ) (rest : List ℕ)
      → n ≤ 65535
      → payload_length shl_wide (b0 ∷ b1 ∷ n / 2 ^ 8 ∷ n % 256 ∷ rest) 126 ≡ some (n, 4)
  unfolding payload_length
  parsed_medium b0 b1 n rest h = ap (λ k. some (k, 4)) (omega arith)

  parsed_large :
      (b0 b1 n : ℕ) (rest : List ℕ)
      → n < int_half
      → payload_length shl_wide
          (b0
            ∷ b1
            ∷ 0
            ∷ 0
            ∷ 0
            ∷ 0
            ∷ n / 2 ^ 24
            ∷ n / 2 ^ 16 % 256
            ∷ n / 2 ^ 8 % 256
            ∷ n % 256
            ∷ rest)
          127
        ≡ some (n, 10)
  unfolding payload_length
  parsed_large b0 b1 n rest h =
      rw (shl_zero 56, shl_zero 48, shl_zero 40, shl_zero 32)
        (ap (λ k. some (k, 10)) (zero-bit_or _ ∙ sum))
    where
      sum : n / 2 ^ 24 * 2 ^ 24 + n / 2 ^ 16 % 256 * 2 ^ 16 + n / 2 ^ 8 % 256 * 2 ^ 8 + n % 256 ≡ n
      sum = omega arith

  -- The header `b0 ∷ size` is read as one of `n` bytes of payload.
  pub record Parsed (b0 m n : ℕ) (rest size : List ℕ) : Type 0 where
    pub b1 : ℕ
    pub second : get_elem? (b0 ∷ (size ++ rest)) 1 ≡ some b1
    pub mask_bit : b1 / 128 % 2 ≡ m
    pub sizes :
        payload_length shl_wide (b0 ∷ (size ++ rest)) (b1 % 128) ≡ some (n, length (b0 ∷ size))

  module _ (b0 m n : ℕ) (rest : List ℕ) (h : m ≤ 1) where
    field : (code : ℕ) → code < 128 → (m * 128 + code) % 128 ≡ code
    field code k = omega arith

    Parsed-one : n ≤ 125 → Parsed b0 m n rest ((m * 128 + n) ∷ [])
    Parsed-one k = record {
      b1 = m * 128 + n;
      second = refl;
      mask_bit = omega arith;
      sizes = rw (field n (omega arith)) (parsed_short b0 m n rest k);
    }

    Parsed-three : n ≤ 65535 → Parsed b0 m n rest ((m * 128 + 126) ∷ n / 2 ^ 8 ∷ n % 256 ∷ [])
    Parsed-three k = record {
      b1 = m * 128 + 126;
      second = refl;
      mask_bit = omega arith;
      sizes = rw (field 126 (omega arith)) (parsed_medium b0 (m * 128 + 126) n rest k);
    }

    Parsed-nine :
        n < int_half
        → Parsed b0 m n rest (
            (m * 128 + 127)
            ∷ 0
            ∷ 0
            ∷ 0
            ∷ 0
            ∷ n / 2 ^ 24
            ∷ n / 2 ^ 16 % 256
            ∷ n / 2 ^ 8 % 256
            ∷ n % 256
            ∷ [])
    Parsed-nine k = record {
      b1 = m * 128 + 127;
      second = refl;
      mask_bit = omega arith;
      sizes = rw (field 127 (omega arith)) (parsed_large b0 (m * 128 + 127) n rest k);
    }

    one_byte : n ≤ 125 → (m * 128 + n) ∷ [] ≡ size_bytes m n
    one_byte k = rw (le→leb n 125 k)

    three_bytes : 125 < n → n ≤ 65535 → (m * 128 + 126) ∷ n / 2 ^ 8 ∷ n % 256 ∷ [] ≡ size_bytes m n
    three_bytes k k' = rw (lt→leb n 125 k, le→leb n 65535 k')

    pub parsed : n < int_half → Parsed b0 m n rest (size_bytes m n)
    parsed k = elim (le-cases n 125) [
      | inl short ↦ subst (Parsed b0 m n rest) (one_byte short) (Parsed-one short)
      | inr long ↦ elim (le-cases n 65535) [
        | inl medium ↦ subst (Parsed b0 m n rest) (three_bytes long medium) (Parsed-three medium)
        | inr large ↦
            subst (Parsed b0 m n rest) (rw (lt→leb n 125 long, lt→leb n 65535 large) refl)
              (Parsed-nine k)
      ]
    ]

result_type_lem : (opcode : ℕ) (fin : Bool) → result_type opcode fin ≡ pick opcode (opcodes fin)
unfolding result_type
result_type_lem zero true = refl
result_type_lem zero false = refl
result_type_lem (suc zero) true = refl
result_type_lem (suc zero) false = refl
result_type_lem (suc (suc zero)) true = refl
result_type_lem (suc (suc zero)) false = refl
result_type_lem (suc (suc (suc zero))) true = refl
result_type_lem (suc (suc (suc zero))) false = refl
result_type_lem (suc (suc (suc (suc zero)))) true = refl
result_type_lem (suc (suc (suc (suc zero)))) false = refl
result_type_lem (suc (suc (suc (suc (suc zero))))) true = refl
result_type_lem (suc (suc (suc (suc (suc zero))))) false = refl
result_type_lem (suc (suc (suc (suc (suc (suc zero)))))) true = refl
result_type_lem (suc (suc (suc (suc (suc (suc zero)))))) false = refl
result_type_lem (suc (suc (suc (suc (suc (suc (suc zero))))))) true = refl
result_type_lem (suc (suc (suc (suc (suc (suc (suc zero))))))) false = refl
result_type_lem (suc (suc (suc (suc (suc (suc (suc (suc zero)))))))) true = refl
result_type_lem (suc (suc (suc (suc (suc (suc (suc (suc zero)))))))) false = refl
result_type_lem (suc (suc (suc (suc (suc (suc (suc (suc (suc zero))))))))) true = refl
result_type_lem (suc (suc (suc (suc (suc (suc (suc (suc (suc zero))))))))) false = refl
result_type_lem (suc (suc (suc (suc (suc (suc (suc (suc (suc (suc zero)))))))))) true = refl
result_type_lem (suc (suc (suc (suc (suc (suc (suc (suc (suc (suc zero)))))))))) false = refl
result_type_lem (suc (suc (suc (suc (suc (suc (suc (suc (suc (suc (suc n))))))))))) fin =
    ground arith

pub get_run :
    (shl_wide : ℕ → ℕ → ℕ) (buffer : List ℕ) (in_length out_len : ℕ) (a : Archive)
    {b0 b1 n pos pos' : ℕ} {a' : Archive}
    → int_le 3 in_length ≡ true
    → get_elem? buffer 0 ≡ some b0
    → get_elem? buffer 1 ≡ some b1
    → payload_length shl_wide buffer (b1 % 128) ≡ some (n, pos)
    → int_le ((n + pos) % int_mod) in_length ≡ true
    → take_payload shl_wide buffer (b1 / 128 % 2 == 1) n pos a ≡ some (pos', a')
    → get_web_socket_frame shl_wide buffer in_length out_len a
      ≡ some (result_type (b0 % 16) (b0 / 128 % 2 == 1), (pos' + n) % int_mod, a')
unfolding get_web_socket_frame
get_run shl_wide buffer in_length out_len a e0 e1 e2 e3 e4 e5 = rw (e0, e1, e2, e3, e4, e5)

pub whole_frame :
    (n pos len : ℕ) → n + pos ≤ len → len < int_half → int_le ((n + pos) % int_mod) len ≡ true
whole_frame n pos len h k = ground arith

-- A header and what follows it, where `take_payload` is known: for a masked frame and for another.
pub get_frame :
    (shl_wide : ℕ → ℕ → ℕ) (b0 m n : ℕ) (body : List ℕ) (in_length out_len : ℕ) (a : Archive)
    {pos' : ℕ} {a' : Archive}
    → ((k : ℕ) → shl_wide 0 k ≡ 0)
    → m ≤ 1
    → 3 ≤ in_length
    → n + length (header b0 m n) ≤ in_length
    → pos' + n ≤ in_length
    → in_length < int_half
    → take_payload shl_wide (header b0 m n ++ body) (m == 1) n (length (header b0 m n)) a
      ≡ some (pos', a')
    → get_web_socket_frame shl_wide (header b0 m n ++ body) in_length out_len a
      ≡ some (frame_type_of b0, pos' + n, a')
get_frame shl_wide b0 m n body in_length out_len a {pos'} {a'} shl_zero h three whole whole' small
      e =
    get_run shl_wide (header b0 m n ++ body) in_length out_len a (ground arith) refl p.second
      p.sizes (whole_frame n (length (header b0 m n)) in_length whole small)
      (ap (λ k. take_payload shl_wide (header b0 m n ++ body) (k == 1) n (length (header b0 m n)) a)
          p.mask_bit
        ∙ e)
    ∙ ap₂ (λ t k. some (t, k, a')) (result_type_lem (b0 % 16) (b0 / 128 % 2 == 1)) low
  where
    p : Parsed shl_wide shl_zero b0 m n body (size_bytes m n)
    p = parsed shl_wide shl_zero b0 m n body h (omega arith)

    low : (pos' + n) % int_mod ≡ pos' + n
    low = omega arith

plain_run :
    (shl_wide : ℕ → ℕ → ℕ) (buffer : List ℕ) (n pos : ℕ) (a : Archive) {rest : List ℕ}
    {a' : Archive}
    → drop pos buffer ≡ rest
    → write rest n a ≡ some a'
    → take_payload shl_wide buffer false n pos a ≡ some (pos, a')
unfolding take_payload
plain_run shl_wide buffer n pos a d e = rw (d, e)

pub drop-header : (xs ys : List ℕ) → drop (length xs) (xs ++ ys) ≡ ys
drop-header xs ys = ap (λ k. drop k (xs ++ ys)) (omega arith) ∙ drop-append_add 0 xs ys

pub length-size_bytes_pos : (m n : ℕ) → 1 ≤ length (size_bytes m n)
length-size_bytes_pos m n = ground arith

-- A buffer that begins with an unmasked frame, whatever comes behind it, is taken for that frame:
-- the type that its first byte has by the table of opcodes, its size, and its payload written into the
-- message. This is so for a first byte `b0`
-- and a payload of one byte and more, of any size that an `int` holds together with the header, if
-- the compiled code shifts a 0 to 0.
pub get_plain_frame :
    (shl_wide : ℕ → ℕ → ℕ) (b0 : ℕ) (payload rest : List ℕ) (in_length out_len : ℕ) (a : Archive)
    {bytes : List ℕ}
    → ((k : ℕ) → shl_wide 0 k ≡ 0)
    → IsValid a.stream bytes
    → a.mode ≡ sm_write
    → a.stream.cur_pos + length payload ≤ max_file
    → 1 ≤ length payload
    → length (header b0 0 (length payload)) + length payload ≤ in_length
    → in_length < int_half
    → (a' : Archive) × (new : List ℕ) × (get_web_socket_frame shl_wide
          (header b0 0 (length payload) ++ (payload ++ rest))
          in_length
          out_len
          a
        ≡ some (frame_type_of b0, length (header b0 0 (length payload)) + length payload, a'))
      × Sent a payload a' new
get_plain_frame shl_wide b0 payload rest in_length out_len a shl_zero v m room one whole small =
    let n : ℕ = length payload in
    let (a', new, e, s) =
      write-Sent a v m (payload ++ rest) n (omega (arith, length-append payload rest)) (omega arith)
        room in
    (
      a',
      new,
      get_frame shl_wide b0 0 n (payload ++ rest) in_length out_len a shl_zero (omega arith)
          (omega (arith, length-size_bytes_pos 0 n)) (omega arith) whole small
          (plain_run shl_wide (header b0 0 n ++ (payload ++ rest)) n (length (header b0 0 n)) a
            (drop-header (header b0 0 n) (payload ++ rest)) e),
      subst (λ l. Sent a l a' new) (take-append_le n payload rest (omega arith) ∙ take_self payload)
          s,
    )
