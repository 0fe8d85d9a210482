-- ===== src/WebSocket/Tests.antt =====
-- The laws of the frames at work on short frames.
use event_server.Base.{
  Bytes, nil, cons, ℕ, ◌+◌, ◌*◌, ◌^◌, ◌%◌, ◌≡◌, ◌<◌, refl, some, none, List, [], ◌∷◌, ◌++◌, arith,
  length, take, false, zero, suc,
}
use event_server.FastBuf
use event_server.MemFile.{contents}
use event_server.MemFile.Tests.{file, file-IsValid}
use event_server.Archive.{Archive}
use event_server.Archive.Sent.{Sent}
use event_server.Archive.Tests.{writer}
use event_server.WebSocket.{text_frame, msg_size, set_web_socket_frame, get_web_socket_frame}
use event_server.WebSocket.Format.{first_byte, frame_type_of, header, key_byte, mask_from}
use event_server.WebSocket.Encode.{set_web_socket_frame_lem}
use event_server.WebSocket.Decode.{get_plain_frame}
use event_server.WebSocket.Mask.{get_masked_frame}
use event_server.WebSocket.RoundTrip.{received, get-set_web_socket_frame}
use event_server.WebSocket.Faults.{get_masked_frame_short}

-- What x86 does: it takes the count modulo 32, so that a wide shift of a 0 gives 0.
abbrev shl_x86 : ℕ → ℕ → ℕ
shl_x86 b k = b * 2 ^ (k % 32)

shl_x86_zero : (k : ℕ) → shl_x86 0 k ≡ 0
shl_x86_zero k = omega arith

small_key : (j : ℕ) → key_byte 1 2 3 4 j < 256
small_key zero = omega arith
small_key (suc zero) = omega arith
small_key (suc (suc zero)) = omega arith
small_key (suc (suc (suc j))) = omega arith

greeting-Bytes : Bytes (72 ∷ 105 ∷ [])
greeting-Bytes = cons 72 _ (omega arith) (cons 105 _ (omega arith) nil)

set_frame_example :
    (a' : Archive) × (new : List ℕ) × (set_web_socket_frame text_frame
        (72 ∷ 105 ∷ [])
        2
        (writer false)
      ≡ some (msg_size a', a'))
    × Sent (writer false) (header (first_byte text_frame) 0 2 ++ take 2 (72 ∷ 105 ∷ [])) a' new
set_frame_example =
    set_web_socket_frame_lem text_frame (72 ∷ 105 ∷ []) 2 (writer false) file-IsValid refl
      (omega arith) (omega arith) (omega arith)

plain_example :
    (a' : Archive) × (new : List ℕ) × (get_web_socket_frame shl_x86
        (header 129 0 2 ++ (72 ∷ 105 ∷ [] ++ 9 ∷ []))
        5
        0
        (writer false)
      ≡ some (frame_type_of 129, length (header 129 0 2) + 2, a'))
    × Sent (writer false) (72 ∷ 105 ∷ []) a' new
plain_example =
    get_plain_frame shl_x86 129 (72 ∷ 105 ∷ []) (9 ∷ []) 5 0 (writer false) shl_x86_zero
      file-IsValid refl (omega arith) (omega arith) (omega arith) (omega arith)

masked_example :
    (a' : Archive) × (new : List ℕ) × (get_web_socket_frame shl_x86
        (header 129 1 2
          ++ 1 ∷ 2 ∷ 3 ∷ 4 ∷ (mask_from (key_byte 1 2 3 4) 0 (72 ∷ 105 ∷ []) ++ 9 ∷ []))
        9
        0
        (writer false)
      ≡ some (frame_type_of 129, length (header 129 1 2) + 4 + 2, a'))
    × Sent (writer false) (72 ∷ 105 ∷ []) a' new
masked_example =
    get_masked_frame shl_x86 129 1 2 3 4 (72 ∷ 105 ∷ []) (9 ∷ []) 9 0 (writer false) shl_x86_zero
      small_key greeting-Bytes file-IsValid refl (omega arith) (omega arith) (omega arith)

masked_short_example :
    get_web_socket_frame shl_x86
      (header 129 1 2 ++ (1 ∷ 2 ∷ 3 ∷ 4 ∷ 73 ∷ []))
      (length (header 129 1 2 ++ (1 ∷ 2 ∷ 3 ∷ 4 ∷ 73 ∷ [])))
      0
      (writer false)
    ≡ none
masked_short_example =
    get_masked_frame_short shl_x86 129 2 (1 ∷ 2 ∷ 3 ∷ 4 ∷ 73 ∷ []) 0 (writer false) shl_x86_zero
      (omega arith) (omega arith) (omega arith) (omega arith)

-- The sender's message stands at its end.
abbrev sender : Archive
sender = record (writer false) { stream = record file { cur_pos = 10 } }

ten : sender.stream.cur_pos ≡ length (contents sender.stream)
unfolding contents FastBuf.contents FastBuf.buf
ten = refl

round_trip_example :
    (a' : Archive) × (b' : Archive) × (new : List ℕ) × (frame : List ℕ) × (set_web_socket_frame
        text_frame
        (72 ∷ 105 ∷ [])
        2
        sender
      ≡ some (msg_size a', a'))
    × (contents a'.stream ≡ contents sender.stream ++ frame)
    × (get_web_socket_frame shl_x86 frame (length frame) 0 (writer false)
        ≡ some (received text_frame, length frame, b'))
    × Sent (writer false) (72 ∷ 105 ∷ []) b' new
round_trip_example =
    get-set_web_socket_frame shl_x86 text_frame (72 ∷ 105 ∷ []) 0 sender (writer false) shl_x86_zero
      (record { holds = file-IsValid.holds; pos_in = omega arith; small = omega arith }) refl ten
      (omega arith) file-IsValid refl (omega arith) (omega arith) (omega arith)
