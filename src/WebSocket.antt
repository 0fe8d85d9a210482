-- ===== src/WebSocket.antt =====
-- lae/source/LXZMessage.cpp, `SetWebSocketFrame` and `GetWebSocketFrame`: a WebSocket frame written
-- into a message, and one taken out of a buffer into a message. A message is an `Archive` here.
pub mod Format
pub mod Encode
pub mod Decode
pub mod Mask
pub mod RoundTrip
pub mod Faults
mod Tests
use event_server.Base.{
  ℕ, zero, suc, ◌+◌, ◌*◌, ◌/◌, ◌%◌, ◌^◌, bit_or, bit_xor, Bool, Option, none, some, List, [], ◌∷◌,
  ltb, leb, ◌==◌, if◌then◌else◌, length, get_elem?, drop, int_le, int_half, int_mod, not,
}
use event_server.Base.Memory.{◌>>=◌, ◌>>◌, load}
use event_server.MemFile
use event_server.Archive.{Archive}
use event_server.Archive.Serial.{serial_uint8, write}

pub data FrameType : Type 0 where
  error_frame incomplete_frame opening_frame closing_frame incomplete_text_frame : FrameType
  incomplete_binary_frame text_frame binary_frame ping_frame pong_frame : FrameType

unfoldable pub frame_code : FrameType → ℕ
frame_code error_frame = 0xFF00
frame_code incomplete_frame = 0xFE00
frame_code opening_frame = 0x3300
frame_code closing_frame = 0x3400
frame_code incomplete_text_frame = 0x01
frame_code incomplete_binary_frame = 0x02
frame_code text_frame = 0x81
frame_code binary_frame = 0x82
frame_code ping_frame = 0x19
frame_code pong_frame = 0x1A

-- `cplen()` of the buffer in the message's stream.
abbrev pub cplen : Archive → ℕ
cplen a = a.stream.fast_buf.cp_len

-- `getMsgSize()`, which `GetValidCount()` makes an `int`.
abbrev pub msg_size : Archive → ℕ
msg_size a = cplen a % int_mod

-- `for (int i = 3; i >= 0; i--) Serial(data);` with `rounds` rounds left.
unfoldable pub pad_bytes : ℕ → ℕ → Archive → Option Archive
pad_bytes zero byte a = some a
pad_bytes (suc rounds) byte a = do (byte', a') ← serial_uint8 byte a; pad_bytes rounds byte' a'

-- The loop over `(msg_length >> 8 * i) & 0xFF`; `rounds` is `i + 1`.
unfoldable pub length_bytes : ℕ → ℕ → Archive → Option Archive
length_bytes zero n a = some a
length_bytes (suc i) n a = do (_, a') ← serial_uint8 (n / 2 ^ (8 * i) % 256) a; length_bytes i n a'

-- The size part of the header; `n` is the `int` `msg_length`.
unfoldable pub put_length : ℕ → Archive → Option Archive
put_length n a =
    if int_le n 125
    then (do (_, a1) ← serial_uint8 (n % 256) a; some a1)
    else if int_le n 65535
    then (do
      (_, a1) ← serial_uint8 126 a
      (_, a2) ← serial_uint8 (n / 2 ^ 8 % 256) a1
      (_, a3) ← serial_uint8 (n % 256) a2
      some a3)
    else (do (_, a1) ← serial_uint8 127 a; a2 ← pad_bytes 4 0 a1; length_bytes 4 n a2)

-- The result is `getMsgSize()`.
unfoldable pub set_web_socket_frame : FrameType → List ℕ → ℕ → Archive → Option (ℕ × Archive)
set_web_socket_frame frame_type msg msg_length a = do
  (_, a1) ← serial_uint8 (frame_code frame_type % 256) a
  a2 ← put_length msg_length a1
  a3 ← write msg msg_length a2
  some (msg_size a3, a3)

-- The final `if`s of `GetWebSocketFrame`.
unfoldable pub result_type : ℕ → Bool → FrameType
result_type opcode fin =
    if opcode == 0
    then (if fin then text_frame else incomplete_text_frame)
    else if opcode == 1
    then (if fin then text_frame else incomplete_text_frame)
    else if opcode == 2
    then (if fin then binary_frame else incomplete_binary_frame)
    else if opcode == 9
    then ping_frame
    else (if opcode == 10 then pong_frame else error_frame)

-- `c[i] ^ mask[i % 4]` for the `n` bytes from `i` on, of the bytes `c`.
unfoldable pub unmask : List ℕ → List ℕ → ℕ → ℕ → Archive → Option Archive
unmask mask c i zero a = some a
unmask mask c i (suc n) a = do
  b ← get_elem? c i
  k ← get_elem? mask (i % 4)
  (_, a') ← serial_uint8 (bit_xor b k) a
  unmask mask c (i + 1) n a'

-- `shl_wide b k` is what the compiled code gives for `b << k` on an `int` at a count `k` of 32 and
-- more, which C leaves undefined.
module _ (shl_wide : ℕ → ℕ → ℕ) where
  -- `payload_length` and `pos`. Bytes that are joined by `|` stand at disjoint places, so that `|`
  -- is `+` there.
  unfoldable pub payload_length : List ℕ → ℕ → Option (ℕ × ℕ)
  payload_length buffer field =
      if leb field 125
      then some (field, 2)
      else if field == 126
      then (do b2 ← get_elem? buffer 2; b3 ← get_elem? buffer 3; some (b2 * 2 ^ 8 + b3, 4))
      else if field == 127
      then (do
        b2 ← get_elem? buffer 2
        b3 ← get_elem? buffer 3
        b4 ← get_elem? buffer 4
        b5 ← get_elem? buffer 5
        b6 ← get_elem? buffer 6
        b7 ← get_elem? buffer 7
        b8 ← get_elem? buffer 8
        b9 ← get_elem? buffer 9
        let high =
            bit_or (bit_or (bit_or (shl_wide b2 56) (shl_wide b3 48)) (shl_wide b4 40))
              (shl_wide b5 32)
        some (bit_or high (b6 * 2 ^ 24 + b7 * 2 ^ 16 + b8 * 2 ^ 8 + b9), 10))
      else some (0, 2)

  -- The payload, from `pos` on: unmasked byte by byte, or copied. Beside the message, `pos` again.
  unfoldable pub take_payload : List ℕ → Bool → ℕ → ℕ → Archive → Option (ℕ × Archive)
  take_payload buffer masked payload pos a =
      if masked
      then (do
        mask ← load pos 4 buffer
        a' ← unmask mask (drop (pos + 4) buffer) 0 (if ltb payload int_half then payload else 0) a
        some (pos + 4, a'))
      else (do a' ← write (drop pos buffer) payload a; some (pos, a'))

  -- `buffer` is the memory behind `in_buffer`. The results are the frame type, `out_len` and the
  -- message.
  unfoldable pub get_web_socket_frame : List ℕ → ℕ → ℕ → Archive → Option (FrameType × ℕ × Archive)
  get_web_socket_frame buffer in_length out_len a =
      if not (int_le 3 in_length) then some (incomplete_frame, out_len, a) else (do
        b0 ← get_elem? buffer 0
        b1 ← get_elem? buffer 1
        (payload, pos) ← payload_length buffer (b1 % 128)
        if not (int_le ((payload + pos) % int_mod) in_length)
            then some (incomplete_frame, out_len, a)
            else (do
              (pos', a') ← take_payload buffer (b1 / 128 % 2 == 1) payload pos a
              some (result_type (b0 % 16) (b0 / 128 % 2 == 1), (pos' + payload) % int_mod, a')))
