-- ===== src/WebSocket/RoundTrip.antt =====
-- A frame that `SetWebSocketFrame` has appended to a message, given to `GetWebSocketFrame`.
use event_server.Base.{
  ℕ, ◌+◌, ◌≤◌, ◌<◌, ◌≡◌, refl, sym, ap, ap₂, ◌∙◌, some, List, [], take_self, ◌++◌, append-nil,
  arith, length, length-append, splice, take_all, splice_end, int_half,
}
use event_server.MemFile.{contents}
use event_server.MemFile.Valid.{IsValid, max_file}
use event_server.Archive.{Archive, sm_write}
use event_server.Archive.Sent.{Sent}
use event_server.WebSocket.{
  FrameType, error_frame, incomplete_frame, opening_frame, closing_frame, incomplete_text_frame,
  incomplete_binary_frame, text_frame, binary_frame, ping_frame, pong_frame, msg_size,
  set_web_socket_frame, get_web_socket_frame,
}
use event_server.WebSocket.Format.{first_byte, frame_type_of, header}
use event_server.WebSocket.Encode.{length-size_bytes, set_web_socket_frame_lem}
use event_server.WebSocket.Decode.{get_plain_frame}

-- At the end of the contents, what is sent is appended.
appended :
    (a : Archive) {bs : List ℕ} {a' : Archive} {new : List ℕ}
    → a.stream.cur_pos ≡ length (contents a.stream)
    → Sent a bs a' new
    → contents a'.stream ≡ contents a.stream ++ bs
appended a {bs} at_end s = s.wrote.bytes ∙ end
  where
    end : splice a.stream.cur_pos bs (contents a.stream) ≡ contents a.stream ++ bs
    end =
        splice_end a.stream.cur_pos bs (contents a.stream) (omega (arith, at_end))
        ∙ ap (λ l. l ++ bs) (take_all a.stream.cur_pos (contents a.stream) (omega (arith, at_end)))

-- What the receiver takes a type for. The types for which the sender has no opcode go out with a
-- first byte 0, which is that of an unfinished continuation.
abbrev pub received : FrameType → FrameType
received text_frame = text_frame
received binary_frame = binary_frame
received incomplete_binary_frame = incomplete_binary_frame
received ping_frame = ping_frame
received pong_frame = pong_frame
received _ = incomplete_text_frame

received_lem : (t : FrameType) → frame_type_of (first_byte t) ≡ received t
received_lem error_frame = refl
received_lem incomplete_frame = refl
received_lem opening_frame = refl
received_lem closing_frame = refl
received_lem incomplete_text_frame = refl
received_lem incomplete_binary_frame = refl
received_lem text_frame = refl
received_lem binary_frame = refl
received_lem ping_frame = refl
received_lem pong_frame = refl

-- A frame that is appended to one message and then taken from there into another arrives: the
-- payload, the frame's whole size, and the type, which is the one that was sent for text, binary,
-- ping and pong frames and for unfinished ones, and an unfinished text for the other types. This
-- holds for at least one byte of payload, and for so many that an `int` holds the size of the frame,
-- if the compiled code shifts a 0 to 0.
pub get-set_web_socket_frame :
    (shl_wide : ℕ → ℕ → ℕ) (frame_type : FrameType) (msg : List ℕ) (out_len : ℕ) (a b : Archive)
    {bytes others : List ℕ}
    → ((k : ℕ) → shl_wide 0 k ≡ 0)
    → IsValid a.stream bytes
    → a.mode ≡ sm_write
    → a.stream.cur_pos ≡ length (contents a.stream)
    → a.stream.cur_pos + length msg + 10 ≤ max_file
    → IsValid b.stream others
    → b.mode ≡ sm_write
    → b.stream.cur_pos + length msg ≤ max_file
    → 1 ≤ length msg
    → length msg + 10 < int_half
    → (a' : Archive) × (b' : Archive) × (new : List ℕ) × (frame : List ℕ) × (set_web_socket_frame
          frame_type msg
          (length msg)
          a
        ≡ some (msg_size a', a'))
      × (contents a'.stream ≡ contents a.stream ++ frame)
      × (get_web_socket_frame shl_wide frame (length frame) out_len b
          ≡ some (received frame_type, length frame, b'))
      × Sent b msg b' new
get-set_web_socket_frame shl_wide frame_type msg out_len a b shl_zero v m at_end room v' m' room'
      one small =
    let n : ℕ = length msg in
    let code : ℕ = first_byte frame_type in
    let head : List ℕ = header code 0 n in
    let (a', _, e, s) =
      set_web_socket_frame_lem frame_type msg n a v m (omega arith) (omega arith) (omega arith) in
    let (b', new, e', t) =
      get_plain_frame shl_wide code msg [] (length (head ++ msg)) out_len b shl_zero v' m' room' one
        (omega (arith, length-append head msg))
        (omega (arith, length-append head msg, length-size_bytes 0 n)) in
    (
      a',
      b',
      new,
      head ++ msg,
      e,
      appended a at_end s ∙ ap (λ l. contents a.stream ++ (head ++ l)) (take_self msg),
      ap (λ l. get_web_socket_frame shl_wide l (length (head ++ msg)) out_len b)
            (ap (λ l. head ++ l) (sym (append-nil msg)))
          ∙ e'
          ∙ ap₂ (λ r k. some (r, k, b')) (received_lem frame_type) (sym (length-append head msg)),
      t,
    )
