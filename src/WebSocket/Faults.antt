-- ===== src/WebSocket/Faults.antt =====
-- Frames that pass the size test of `GetWebSocketFrame` although bytes are missing.
use event_server.Base.{
  ℕ, zero, suc, ◌+◌, ◌%◌, ◌/◌, ◌≤◌, ◌<◌, ◌≡◌, refl, ap, ◌∙◌, none, some, List, [], ◌∷◌, ◌++◌, arith,
  length, length-append, length-drop, le-cases, inl, inr, drop, get_elem?, int_half, int_le,
  int_mod, true, lt→ltb, bit_xor, ◌==◌,
}
use event_server.Base.Memory.{bind_none, load}
use event_server.Archive.{Archive}
use event_server.Archive.Serial.{serial_uint8}
use event_server.WebSocket.{unmask, payload_length, take_payload, get_web_socket_frame}
use event_server.WebSocket.Format.{header, size_bytes}
use event_server.WebSocket.Encode.{length-size_bytes}
use event_server.WebSocket.Decode.{length-size_bytes_pos, parsed, Parsed, whole_frame}

get_elem?_beyond : (c : List ℕ) (i : ℕ) → length c ≤ i → get_elem? c i ≡ none
get_elem?_beyond [] i h = refl
get_elem?_beyond (x ∷ xs) zero h = absurd (omega arith)
get_elem?_beyond (x ∷ xs) (suc i) h = get_elem?_beyond xs i (omega arith)

unmask_short :
    (mask c : List ℕ) (i n : ℕ) (a : Archive)
    → length c < i + n
    → i ≤ length c
    → unmask mask c i n a ≡ none
unfolding unmask
unmask_short mask c i zero a h k = absurd (omega arith)
unmask_short mask c i (suc n) a h k = elim (le-cases (length c) i) [
  | inl out ↦ rw (get_elem?_beyond c i out) refl
  | inr inside ↦ bind_none (get_elem? c i) _ (λ b. bind_none (get_elem? mask (i % 4)) _ (λ key.
      bind_none (serial_uint8 (bit_xor b key) a) _
        (λ r. unmask_short mask c (i + 1) n r.1 (omega arith) (omega arith))))
]

take_short :
    (shl_wide : ℕ → ℕ → ℕ) (buffer : List ℕ) (n pos : ℕ) (a : Archive)
    → n < int_half
    → length buffer < pos + 4 + n
    → 1 ≤ n
    → take_payload shl_wide buffer true n pos a ≡ none
unfolding take_payload
take_short shl_wide buffer n pos a small h one =
    bind_none (load pos 4 buffer) _ (λ mask. rw (lt→ltb n int_half small, short mask) refl)
  where
    short : (mask : List ℕ) → unmask mask (drop (pos + 4) buffer) 0 n a ≡ none
    short mask =
        unmask_short mask (drop (pos + 4) buffer) 0 n a
          (omega (arith, length-drop (pos + 4) buffer)) (omega arith)

get_stop :
    (shl_wide : ℕ → ℕ → ℕ) (buffer : List ℕ) (in_length out_len : ℕ) (a : Archive) {b0 b1 n pos : ℕ}
    → int_le 3 in_length ≡ true
    → get_elem? buffer 0 ≡ some b0
    → get_elem? buffer 1 ≡ some b1
    → payload_length shl_wide buffer (b1 % 128) ≡ some (n, pos)
    → int_le ((n + pos) % int_mod) in_length ≡ true
    → take_payload shl_wide buffer (b1 / 128 % 2 == 1) n pos a ≡ none
    → get_web_socket_frame shl_wide buffer in_length out_len a ≡ none
unfolding get_web_socket_frame
get_stop shl_wide buffer in_length out_len a e0 e1 e2 e3 e4 e5 = rw (e0, e1, e2, e3, e4, e5) refl

-- A masked frame that has arrived except for one to four of its last bytes is not taken for an
-- incomplete one: the test leaves the four bytes of the key out of the size, and the function reads
-- behind the bytes that it was given. `body` is the key and the part of the payload that is there.
pub get_masked_frame_short :
    (shl_wide : ℕ → ℕ → ℕ) (b0 n : ℕ) (body : List ℕ) (out_len : ℕ) (a : Archive)
    → ((k : ℕ) → shl_wide 0 k ≡ 0)
    → 1 ≤ n
    → n ≤ length body
    → length body < n + 4
    → length body + 10 < int_half
    → get_web_socket_frame shl_wide
        (header b0 1 n ++ body)
        (length (header b0 1 n ++ body))
        out_len
        a
      ≡ none
get_masked_frame_short shl_wide b0 n body out_len a shl_zero one whole short small =
    get_stop shl_wide buffer (length buffer) out_len a
      (ground (arith, len, length-size_bytes_pos 1 n, length-size_bytes 1 n)) refl p.second p.sizes
      (whole_frame n (length (header b0 1 n)) (length buffer) (omega (arith, len))
        (omega (arith, len, length-size_bytes 1 n)))
      (ap (λ k. take_payload shl_wide buffer (k == 1) n (length (header b0 1 n)) a) p.mask_bit
        ∙ take_short shl_wide buffer n (length (header b0 1 n)) a (omega arith) (omega (arith, len))
            one)
  where
    buffer : List ℕ
    buffer = header b0 1 n ++ body

    p : Parsed shl_wide shl_zero b0 1 n body (size_bytes 1 n)
    p = parsed shl_wide shl_zero b0 1 n body (omega arith) (omega arith)

    len : length buffer ≡ length (header b0 1 n) + length body
    len = length-append (header b0 1 n) body
