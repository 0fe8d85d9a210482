-- ===== src/WebSocket/Format.antt =====
-- The bytes of a frame, as RFC 6455 lays them out: what the two functions are measured against.
use event_server.Base.{
  Bool, true, false, ℕ, zero, suc, ◌+◌, ◌*◌, ◌/◌, ◌%◌, ◌^◌, bit_xor, List, [], ◌∷◌, ◌++◌, leb, ◌==◌,
  if◌then◌else◌, length,
}
use event_server.WebSocket.{
  FrameType, error_frame, incomplete_frame, opening_frame, closing_frame, incomplete_text_frame,
  incomplete_binary_frame, text_frame, binary_frame, ping_frame, pong_frame,
}

-- The first byte that goes out for each type. Those of text and binary frames are final frames of RFC
-- 6455. Ping and pong go out unfinished and with a reserved bit, and the types for which the protocol
-- has no frame of the program go out as a 0.
abbrev pub first_byte : FrameType → ℕ
first_byte error_frame = 0
first_byte incomplete_frame = 0
first_byte opening_frame = 0
first_byte closing_frame = 0
first_byte incomplete_text_frame = 0x01
first_byte incomplete_binary_frame = 0x02
first_byte text_frame = 0x81
first_byte binary_frame = 0x82
first_byte ping_frame = 0x19
first_byte pong_frame = 0x1A

-- The types of the opcodes from 0 on, of a final frame and of another: a continuation counts as text.
abbrev pub opcodes : Bool → List FrameType
opcodes true =
    text_frame ∷ text_frame ∷ binary_frame ∷ error_frame ∷ error_frame ∷ error_frame ∷ error_frame
    ∷ error_frame ∷ error_frame ∷ ping_frame ∷ pong_frame ∷ []
opcodes false =
    incomplete_text_frame ∷ incomplete_text_frame ∷ incomplete_binary_frame ∷ error_frame
    ∷ error_frame ∷ error_frame ∷ error_frame ∷ error_frame ∷ error_frame ∷ ping_frame ∷ pong_frame
    ∷ []

abbrev pub pick : ℕ → List FrameType → FrameType
pick opcode [] = error_frame
pick zero (t ∷ ts) = t
pick (suc opcode) (t ∷ ts) = pick opcode ts

-- The type of a frame by its first byte.
abbrev pub frame_type_of : ℕ → FrameType
frame_type_of b0 = pick (b0 % 16) (opcodes (b0 / 128 % 2 == 1))

-- The size of the payload, in one, three or nine bytes, the first with the mask bit `m`. Sizes of
-- the program are below 2 ^ 32, so that the upper half of the long form is 0.
abbrev pub size_bytes : ℕ → ℕ → List ℕ
size_bytes m n =
    if leb n 125
    then (m * 128 + n) ∷ []
    else if leb n 65535
    then (m * 128 + 126) ∷ n / 2 ^ 8 ∷ n % 256 ∷ []
    else (m * 128 + 127)
      ∷ 0
      ∷ 0
      ∷ 0
      ∷ 0
      ∷ n / 2 ^ 24
      ∷ n / 2 ^ 16 % 256
      ∷ n / 2 ^ 8 % 256
      ∷ n % 256
      ∷ []

abbrev pub header : ℕ → ℕ → ℕ → List ℕ
header b0 m n = b0 ∷ size_bytes m n

-- A frame as a server sends it, without a mask.
abbrev pub plain_frame : ℕ → List ℕ → List ℕ
plain_frame b0 payload = header b0 0 (length payload) ++ payload

-- The byte of the four-byte key that goes with place `i`.
abbrev pub key_byte : ℕ → ℕ → ℕ → ℕ → ℕ → ℕ
key_byte k0 k1 k2 k3 zero = k0
key_byte k0 k1 k2 k3 (suc zero) = k1
key_byte k0 k1 k2 k3 (suc (suc zero)) = k2
key_byte k0 k1 k2 k3 (suc (suc (suc i))) = k3

-- Every byte combined with the key's, from place `i` on; the key starts again after four places.
unfoldable pub mask_from : (ℕ → ℕ) → ℕ → List ℕ → List ℕ
mask_from key i [] = []
mask_from key i (b ∷ bs) = bit_xor b (key (i % 4)) ∷ mask_from key (i + 1) bs
