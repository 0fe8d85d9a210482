-- ===== src/WebSocket/Encode.antt =====
-- `SetWebSocketFrame` writes a frame with the layout of RFC 6455.
use event_server.Base.{
  ℕ, zero, suc, ◌+◌, ◌*◌, ◌/◌, ◌%◌, ◌^◌, ◌≤◌, ◌<◌, ◌≡◌, refl, ◌∙◌, subst, inl, inr, some, List, [],
  ◌∷◌, ◌++◌, arith, length, take, le-cases, int_half, int_le, true, false,
}
use event_server.MemFile.Valid.{IsValid, max_file}
use event_server.Archive.{Archive, sm_write}
use event_server.Archive.Serial.{serial_uint8, write}
use event_server.Archive.Sent.{Sent, Sent-nil, Sent-trans, uint8_Sent, write-Sent}
use event_server.WebSocket.{
  FrameType, error_frame, incomplete_frame, opening_frame, closing_frame, incomplete_text_frame,
  incomplete_binary_frame, text_frame, binary_frame, ping_frame, pong_frame, frame_code, msg_size,
  pad_bytes, length_bytes, put_length, set_web_socket_frame,
}
use event_server.WebSocket.Format.{first_byte, size_bytes, header}

pad_bytes_run :
    (a : Archive) {b : Archive} (rounds byte : ℕ)
    → serial_uint8 byte a ≡ some (byte, b)
    → pad_bytes (suc rounds) byte a ≡ pad_bytes rounds byte b
unfolding pad_bytes
pad_bytes_run a rounds byte e = rw e

length_bytes_run :
    (a : Archive) {b : Archive} (i n : ℕ)
    → serial_uint8 (n / 2 ^ (8 * i) % 256) a ≡ some (n / 2 ^ (8 * i) % 256, b)
    → length_bytes (suc i) n a ≡ length_bytes i n b
unfolding length_bytes
length_bytes_run a i n e = rw e

pad_bytes_none : (a : Archive) → pad_bytes zero 0 a ≡ some a
unfolding pad_bytes
pad_bytes_none a = refl

length_bytes_none : (a : Archive) (n : ℕ) → length_bytes zero n a ≡ some a
unfolding length_bytes
length_bytes_none a n = refl

abbrev zeros : ℕ → List ℕ
zeros zero = []
zeros (suc n) = 0 ∷ zeros n

abbrev big_endian : ℕ → ℕ → List ℕ
big_endian zero n = []
big_endian (suc i) n = n / 2 ^ (8 * i) % 256 ∷ big_endian i n

pad_bytes-Sent :
    (rounds : ℕ) (a : Archive) {bytes : List ℕ}
    → IsValid a.stream bytes
    → a.mode ≡ sm_write
    → a.stream.cur_pos + rounds ≤ max_file
    → (a' : Archive) × (new : List ℕ) × (pad_bytes rounds 0 a ≡ some a')
      × Sent a (zeros rounds) a' new
pad_bytes-Sent zero a {bytes} v m room = (a, bytes, pad_bytes_none a, Sent-nil a v)
pad_bytes-Sent (suc rounds) a v m room =
    let (b, new, e, s) = uint8_Sent a v m 0 (omega arith) (omega arith) in
    let (c, newer, e', t) =
      pad_bytes-Sent rounds b s.wrote.valid (s.mode ∙ m) (omega (arith, s.wrote.pos, room)) in
    (c, newer, pad_bytes_run a rounds 0 e ∙ e', Sent-trans (0 ∷ []) (zeros rounds) v s t)

length_bytes-Sent :
    (i n : ℕ) (a : Archive) {bytes : List ℕ}
    → IsValid a.stream bytes
    → a.mode ≡ sm_write
    → a.stream.cur_pos + i ≤ max_file
    → (a' : Archive) × (new : List ℕ) × (length_bytes i n a ≡ some a')
      × Sent a (big_endian i n) a' new
length_bytes-Sent zero n a {bytes} v m room = (a, bytes, length_bytes_none a n, Sent-nil a v)
length_bytes-Sent (suc i) n a v m room =
    let byte : ℕ = n / 2 ^ (8 * i) % 256 in
    let (b, new, e, s) = uint8_Sent a v m byte (omega arith) (omega arith) in
    let (c, newer, e', t) =
      length_bytes-Sent i n b s.wrote.valid (s.mode ∙ m) (omega (arith, s.wrote.pos, room)) in
    (c, newer, length_bytes_run a i n e ∙ e', Sent-trans (byte ∷ []) (big_endian i n) v s t)

-- The three forms of the size.
put_short :
    (n : ℕ) (a : Archive) {b : Archive}
    → n ≤ 125
    → serial_uint8 n a ≡ some (n, b)
    → put_length n a ≡ some b
unfolding put_length
put_short n a {b} h e = rw (short, low, e)
  where
    short : int_le n 125 ≡ true
    short = ground arith

    low : n % 256 ≡ n
    low = omega arith

put_medium :
    (n : ℕ) (a : Archive) {b c d : Archive}
    → 125 < n
    → n ≤ 65535
    → serial_uint8 126 a ≡ some (126, b)
    → serial_uint8 (n / 2 ^ 8) b ≡ some (n / 2 ^ 8, c)
    → serial_uint8 (n % 256) c ≡ some (n % 256, d)
    → put_length n a ≡ some d
unfolding put_length
put_medium n a h k e e' e'' = rw (long, medium, e, low, e', e'')
  where
    long : int_le n 125 ≡ false
    long = ground arith

    medium : int_le n 65535 ≡ true
    medium = ground arith

    low : n / 2 ^ 8 % 256 ≡ n / 2 ^ 8
    low = omega arith

put_large :
    (n : ℕ) (a : Archive) {b c d : Archive}
    → 65535 < n
    → n < int_half
    → serial_uint8 127 a ≡ some (127, b)
    → pad_bytes 4 0 b ≡ some c
    → length_bytes 4 n c ≡ some d
    → put_length n a ≡ some d
unfolding put_length
put_large n a h k e e' e'' = rw (long, large, e, e', e'')
  where
    long : int_le n 125 ≡ false
    long = ground arith

    large : int_le n 65535 ≡ false
    large = ground arith

size_bytes_short : (n : ℕ) → n ≤ 125 → n ∷ [] ≡ size_bytes 0 n
size_bytes_short n h = ground arith

size_bytes_medium :
    (n : ℕ)
    → 125 < n
    → n ≤ 65535
    → (126 ∷ []) ++ ((n / 2 ^ 8 ∷ []) ++ (n % 256 ∷ [])) ≡ size_bytes 0 n
size_bytes_medium n h k = ground arith

size_bytes_large :
    (n : ℕ) → 65535 < n → n < int_half → (127 ∷ []) ++ (zeros 4 ++ big_endian 4 n) ≡ size_bytes 0 n
size_bytes_large n h k = ground arith

module _ (a : Archive) {bytes : List ℕ} (v : IsValid a.stream bytes) (m : a.mode ≡ sm_write)
    (room : a.stream.cur_pos + 9 ≤ max_file) where
  abbrev Puts : ℕ → Type 0
  Puts n =
      (a' : Archive) × (new : List ℕ) × (put_length n a ≡ some a') × Sent a (size_bytes 0 n) a' new

  put_short_Sent : (n : ℕ) → n ≤ 125 → Puts n
  put_short_Sent n h =
      let (b, new, e, s) = uint8_Sent a v m n (omega arith) (omega arith) in
      (b, new, put_short n a h e, subst (λ l. Sent a l b new) (size_bytes_short n h) s)

  put_medium_Sent : (n : ℕ) → 125 < n → n ≤ 65535 → Puts n
  put_medium_Sent n h k =
      let (b, nb, e, s) = uint8_Sent a v m 126 (omega arith) (omega arith) in
      let (c, nc, e', t) =
        uint8_Sent b s.wrote.valid (s.mode ∙ m) (n / 2 ^ 8) (omega arith)
          (omega (arith, s.wrote.pos)) in
      let (d, nd, e'', u) =
        uint8_Sent c t.wrote.valid (t.mode ∙ s.mode ∙ m) (n % 256) (omega arith)
          (omega (arith, s.wrote.pos, t.wrote.pos)) in
      (
        d,
        nd,
        put_medium n a h k e e' e'',
        subst (λ l. Sent a l d nd) (size_bytes_medium n h k)
            (Sent-trans (126 ∷ []) _ v s
              (Sent-trans (n / 2 ^ 8 ∷ []) (n % 256 ∷ []) s.wrote.valid t u)),
      )

  put_large_Sent : (n : ℕ) → 65535 < n → n < int_half → Puts n
  put_large_Sent n h k =
      let (b, nb, e, s) = uint8_Sent a v m 127 (omega arith) (omega arith) in
      let (c, nc, e', t) =
        pad_bytes-Sent 4 b s.wrote.valid (s.mode ∙ m) (omega (arith, s.wrote.pos)) in
      let (d, nd, e'', u) =
        length_bytes-Sent 4 n c t.wrote.valid (t.mode ∙ s.mode ∙ m)
          (omega (arith, s.wrote.pos, t.wrote.pos)) in
      (
        d,
        nd,
        put_large n a h k e e' e'',
        subst (λ l. Sent a l d nd) (size_bytes_large n h k)
            (Sent-trans (127 ∷ []) _ v s (Sent-trans (zeros 4) (big_endian 4 n) s.wrote.valid t u)),
      )

  put_length-Sent : (n : ℕ) → n < int_half → Puts n
  put_length-Sent n k = elim (le-cases n 125) [
    | inl short ↦ put_short_Sent n short
    | inr long ↦ elim (le-cases n 65535) [
      | inl medium ↦ put_medium_Sent n long medium
      | inr large ↦ put_large_Sent n large k
    ]
  ]

pub length-size_bytes : (m n : ℕ) → length (size_bytes m n) ≤ 9
length-size_bytes m n = ground arith

first_byte_lem : (t : FrameType) → frame_code t % 256 ≡ first_byte t
unfolding frame_code
first_byte_lem error_frame = refl
first_byte_lem incomplete_frame = refl
first_byte_lem opening_frame = refl
first_byte_lem closing_frame = refl
first_byte_lem incomplete_text_frame = refl
first_byte_lem incomplete_binary_frame = refl
first_byte_lem text_frame = refl
first_byte_lem binary_frame = refl
first_byte_lem ping_frame = refl
first_byte_lem pong_frame = refl

set_frame_run :
    (frame_type : FrameType) (msg : List ℕ) (n : ℕ) (a : Archive) {b c d : Archive}
    → serial_uint8 (frame_code frame_type % 256) a ≡ some (frame_code frame_type % 256, b)
    → put_length n b ≡ some c
    → write msg n c ≡ some d
    → set_web_socket_frame frame_type msg n a ≡ some (msg_size d, d)
unfolding set_web_socket_frame
set_frame_run frame_type msg n a e e' e'' = rw (e, e', e'')

-- In a well-formed message that is being written, `SetWebSocketFrame` writes at the position a header
-- with the layout of RFC 6455: the first byte that the table has for the type, and the size of `n`
-- bytes of payload in one, three or nine bytes; then it writes the payload, and returns the size of
-- the message as an `int`. Any `n` that an `int` and the message's memory hold will do.
pub set_web_socket_frame_lem :
    (frame_type : FrameType) (msg : List ℕ) (n : ℕ) (a : Archive) {bytes : List ℕ}
    → IsValid a.stream bytes
    → a.mode ≡ sm_write
    → n ≤ length msg
    → n < int_half
    → a.stream.cur_pos + n + 10 ≤ max_file
    → (a' : Archive) × (new : List ℕ) × (set_web_socket_frame frame_type msg n a
        ≡ some (msg_size a', a'))
      × Sent a (header (first_byte frame_type) 0 n ++ take n msg) a' new
set_web_socket_frame_lem frame_type msg n a v m h k room =
    let code : ℕ = frame_code frame_type % 256 in
    let (b, nb, e, s) = uint8_Sent a v m code (omega arith) (omega arith) in
    let (c, nc, e', t) =
      put_length-Sent b s.wrote.valid (s.mode ∙ m) (omega (arith, s.wrote.pos)) n k in
    let (d, nd, e'', u) =
      write-Sent c t.wrote.valid (t.mode ∙ s.mode ∙ m) msg n h k
        (omega (arith, s.wrote.pos, t.wrote.pos, length-size_bytes 0 n)) in
    (
      d,
      nd,
      set_frame_run frame_type msg n a e e' e'',
      subst (λ b0. Sent a (header b0 0 n ++ take n msg) d nd) (first_byte_lem frame_type)
          (Sent-trans (code ∷ []) _ v s
            (Sent-trans (size_bytes 0 n) (take n msg) s.wrote.valid t u)),
    )
