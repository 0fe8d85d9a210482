-- ===== src/WebSocket/Mask.antt =====
-- The mask of a client's frame: the loop of `GetWebSocketFrame` takes it off.
use event_server.Base.{
  Bytes, cons, ℕ, zero, suc, ◌+◌, ◌%◌, ◌≤◌, ◌<◌, ◌≡◌, refl, sym, ap, ◌∙◌, some, List, [], ◌∷◌, ◌++◌,
  ap₂, append_assoc, arith, length, length-append, get_elem?, bit_xor, bit_xor_twice, true,
  int_half, lt→ltb, take, drop, drop-append_add,
}
use event_server.Base.Memory.{load, load_inside}
use event_server.MemFile.Valid.{IsValid, max_file}
use event_server.Archive.{Archive, sm_write}
use event_server.Archive.Serial.{serial_uint8}
use event_server.Archive.Sent.{Sent, Sent-nil, Sent-trans, uint8_Sent}
use event_server.WebSocket.{unmask, take_payload, get_web_socket_frame}
use event_server.WebSocket.Decode.{get_frame, drop-header}
use event_server.WebSocket.Format.{frame_type_of, header, key_byte, mask_from}

get_elem?-append :
    (xs : List ℕ) (y : ℕ) (ys : List ℕ) → get_elem? (xs ++ y ∷ ys) (length xs) ≡ some y
get_elem?-append [] y ys = refl
get_elem?-append (x ∷ xs) y ys = get_elem?-append xs y ys

key_at :
    (k0 k1 k2 k3 j : ℕ)
    → j < 4
    → get_elem? (k0 ∷ k1 ∷ k2 ∷ k3 ∷ []) j ≡ some (key_byte k0 k1 k2 k3 j)
key_at k0 k1 k2 k3 zero h = refl
key_at k0 k1 k2 k3 (suc zero) h = refl
key_at k0 k1 k2 k3 (suc (suc zero)) h = refl
key_at k0 k1 k2 k3 (suc (suc (suc zero))) h = refl
key_at k0 k1 k2 k3 (suc (suc (suc (suc j)))) h = absurd (omega arith)

unmask_none : (mask c : List ℕ) (i : ℕ) (a : Archive) → unmask mask c i zero a ≡ some a
unfolding unmask
unmask_none mask c i a = refl

unmask_run :
    (mask c : List ℕ) (i n : ℕ) (a : Archive) {x k b : ℕ} {a' : Archive}
    → get_elem? c i ≡ some x
    → get_elem? mask (i % 4) ≡ some k
    → bit_xor x k ≡ b
    → serial_uint8 b a ≡ some (b, a')
    → unmask mask c i (suc n) a ≡ unmask mask c (i + 1) n a'
unfolding unmask
unmask_run mask c i n a e0 e1 e2 e3 = rw (e0, e1, e2, e3)

module _ (k0 k1 k2 k3 : ℕ) (key_bytes : (j : ℕ) → key_byte k0 k1 k2 k3 j < 256) where
  abbrev key : ℕ → ℕ
  key j = key_byte k0 k1 k2 k3 j

  -- The same bytes, with the border one place further.
  next :
      (x : ℕ) (xs before rest : List ℕ) (a : Archive)
      → unmask
          (k0 ∷ k1 ∷ k2 ∷ k3 ∷ [])
          (before ++ (mask_from key (length before) (x ∷ xs) ++ rest))
          (length before + 1)
          (length xs)
          a
        ≡ (let y : ℕ = bit_xor x (key (length before % 4)) in
            unmask
              (k0 ∷ k1 ∷ k2 ∷ k3 ∷ [])
              ((before ++ y ∷ []) ++ (mask_from key (length (before ++ y ∷ [])) xs ++ rest))
              (length (before ++ y ∷ []))
              (length xs)
              a)
  unfolding mask_from
  next x xs before rest a =
      ap₂ (λ i c. unmask (k0 ∷ k1 ∷ k2 ∷ k3 ∷ []) c i (length xs) a) (sym len)
        (ap (λ i. before ++ y ∷ (mask_from key i xs ++ rest)) (sym len)
          ∙ sym (append_assoc before (y ∷ []) _))
    where
      y : ℕ
      y = bit_xor x (key (length before % 4))

      len : length (before ++ y ∷ []) ≡ length before + 1
      len = length-append before (y ∷ [])

  -- `before` is what the loop has been over, `rest` what follows the payload.
  pub unmask-Sent :
      (payload before rest : List ℕ) (a : Archive) {bytes : List ℕ}
      → Bytes payload
      → IsValid a.stream bytes
      → a.mode ≡ sm_write
      → a.stream.cur_pos + length payload ≤ max_file
      → (a' : Archive) × (new : List ℕ) × (unmask
            (k0 ∷ k1 ∷ k2 ∷ k3 ∷ [])
            (before ++ (mask_from key (length before) payload ++ rest))
            (length before)
            (length payload)
            a
          ≡ some a')
        × Sent a payload a' new
  unfolding mask_from
  unmask-Sent [] before rest a {bytes} all v m room = (a, bytes, unmask_none _ _ _ a, Sent-nil a v)
  unmask-Sent (x ∷ xs) before rest a (cons _ _ h all) v m room =
      let y : ℕ = bit_xor x (key (length before % 4)) in
      let (b, new, e, s) = uint8_Sent a v m x h (omega arith) in
      let (c, newer, e', t) =
        unmask-Sent xs (before ++ y ∷ []) rest b all s.wrote.valid (s.mode ∙ m)
          (omega (arith, s.wrote.pos, room)) in
      (
        c,
        newer,
        unmask_run _ _ _ (length xs) a (get_elem?-append before _ _)
              (key_at k0 k1 k2 k3 (length before % 4) (omega arith))
              (bit_xor_twice x _ h (key_bytes _)) e
            ∙ next x xs before rest b
            ∙ e',
        Sent-trans (x ∷ []) xs v s t,
      )

masked_run :
    (shl_wide : ℕ → ℕ → ℕ) (buffer : List ℕ) (n pos : ℕ) (a : Archive) {mask rest : List ℕ}
    {a' : Archive}
    → n < int_half
    → load pos 4 buffer ≡ some mask
    → drop (pos + 4) buffer ≡ rest
    → unmask mask rest 0 n a ≡ some a'
    → take_payload shl_wide buffer true n pos a ≡ some (pos + 4, a')
unfolding take_payload
masked_run shl_wide buffer n pos a h e0 e1 e2 = rw (e0, e1, lt→ltb n int_half h, e2)

-- The key that stands behind the header.
load_key :
    (head : List ℕ) (k0 k1 k2 k3 : ℕ) (rest : List ℕ)
    → load (length head) 4 (head ++ k0 ∷ k1 ∷ k2 ∷ k3 ∷ rest) ≡ some (k0 ∷ k1 ∷ k2 ∷ k3 ∷ [])
load_key head k0 k1 k2 k3 rest =
    load_inside (length head) 4 _ (omega (arith, length-append head (k0 ∷ k1 ∷ k2 ∷ k3 ∷ rest)))
    ∙ ap (λ l. some (take 4 l)) (drop-header head (k0 ∷ k1 ∷ k2 ∷ k3 ∷ rest))

drop_add :
    (head : List ℕ) (k0 k1 k2 k3 : ℕ) (rest : List ℕ)
    → drop (length head + 4) (head ++ k0 ∷ k1 ∷ k2 ∷ k3 ∷ rest) ≡ rest
drop_add head k0 k1 k2 k3 rest = drop-append_add 4 head (k0 ∷ k1 ∷ k2 ∷ k3 ∷ rest)

-- A buffer that begins with a whole masked frame, whatever comes behind it, is taken for that
-- frame: the type that its first byte has by the table of opcodes, its size with the key, and the
-- payload without the mask, in the message. This is so for a first byte `b0` and a payload of bytes, of any size that an `int` holds together with
-- header and key, if the compiled code shifts a 0 to 0.
pub get_masked_frame :
    (shl_wide : ℕ → ℕ → ℕ) (b0 k0 k1 k2 k3 : ℕ) (payload rest : List ℕ) (in_length out_len : ℕ)
    (a : Archive) {bytes : List ℕ}
    → ((k : ℕ) → shl_wide 0 k ≡ 0)
    → ((j : ℕ) → key_byte k0 k1 k2 k3 j < 256)
    → Bytes payload
    → IsValid a.stream bytes
    → a.mode ≡ sm_write
    → a.stream.cur_pos + length payload ≤ max_file
    → length (header b0 1 (length payload)) + 4 + length payload ≤ in_length
    → in_length < int_half
    → (a' : Archive) × (new : List ℕ) × (get_web_socket_frame shl_wide
          (header b0 1 (length payload)
            ++ k0 ∷ k1 ∷ k2 ∷ k3 ∷ (mask_from (key_byte k0 k1 k2 k3) 0 payload ++ rest))
          in_length
          out_len
          a
        ≡ some (frame_type_of b0, length (header b0 1 (length payload)) + 4 + length payload, a'))
      × Sent a payload a' new
get_masked_frame shl_wide b0 k0 k1 k2 k3 payload rest in_length out_len a shl_zero key_bytes all v m
      room whole small =
    let n : ℕ = length payload in
    let head : List ℕ = header b0 1 n in
    let tail : List ℕ = mask_from (key_byte k0 k1 k2 k3) 0 payload ++ rest in
    let (a', new, e, s) = unmask-Sent k0 k1 k2 k3 key_bytes payload [] rest a all v m room in
    (
      a',
      new,
      get_frame shl_wide b0 1 n (k0 ∷ k1 ∷ k2 ∷ k3 ∷ tail) in_length out_len a shl_zero
          (omega arith) (omega arith) (omega arith) whole small
          (masked_run shl_wide (head ++ k0 ∷ k1 ∷ k2 ∷ k3 ∷ tail) n (length head) a (omega arith)
            (load_key head k0 k1 k2 k3 tail) (drop_add head k0 k1 k2 k3 tail) e),
      s,
    )
