-- ===== src/Message/RoundTrip.antt =====
-- A message that `SerialMsg` puts into an archive, taken out again.
use event_server.Base.{
  Bool, none, ℕ, ◌+◌, ◌%◌, ◌≤◌, ◌<◌, ◌≡◌, refl, sym, ap, ap₂, ◌∙◌, subst, some, List, ◌++◌,
  append_assoc, arith, length, take, splice, le_bytes, length-le_bytes, int_half, int_mod, int_le,
  lt→ltb, true, false, replicate, take_self,
}
use event_server.Base.Memory.{bind_none}
use event_server.FastBuf
use event_server.FastBuf.Holds.{buf-Holds}
use event_server.MemFile
use event_server.MemFile.{MemFile, contents}
use event_server.MemFile.Valid.{IsValid, max_file, length-contents, contents-IsValid}
use event_server.MemFile.Position.{set_pos_inside}
use event_server.Archive.{Archive, Mode, sm_read, sm_write, set_mode}
use event_server.Archive.Serial.{serial_int, serial_buf, serial_chars}
use event_server.Archive.Transfer.{rewound}
use event_server.Archive.Sent.{Sent, Sent-trans}
use event_server.Archive.Reads.{Reads, moved, serial_int-Reads, serial_buf-Reads}
use event_server.Archive.Texts.{serial_int-Sent, serial_buf-Sent, serial_chars-Sent, Sent-Reads}
use event_server.WebSocket.{cplen}
use event_server.Message.{set_own_mode, max_nested, take_content, read_msg, write_msg, serial_msg}

write_run :
    (attached : Bool) (ar msg : Archive) (n : ℕ) {mem : List ℕ} {b c : Archive}
    → cplen msg ≡ n
    → 1 ≤ n
    → n < int_half
    → ar.mode ≡ sm_write
    → serial_int n ar ≡ some (n, b)
    → FastBuf.buf MemFile.cache msg.stream.fast_buf ≡ some mem
    → serial_buf mem n n b ≡ some (mem, c)
    → serial_msg attached ar msg ≡ some (c, record msg { version = ar.version })
unfolding serial_msg write_msg
write_run attached ar msg n {b = b} e one small m f g h = ground (arith, narrow, positive, f, g, h)
  where
    narrow : cplen msg % int_mod ≡ n
    narrow = omega arith

    positive : int_le 1 n ≡ true
    positive = ground arith

take_run :
    (ar msg : Archive) (n : ℕ) {c : List ℕ} {b m : Archive}
    → serial_buf (replicate n 0) n n ar ≡ some (c, b)
    → serial_chars c n (set_mode sm_write msg) ≡ some (c, m)
    → take_content true n ar msg ≡ some (b, m)
unfolding take_content set_own_mode
take_run ar msg n e f = rw (e, f)

read_run :
    (ar msg : Archive) (n : ℕ) {b c m : Archive}
    → 1 ≤ n
    → n < max_nested
    → ar.mode ≡ sm_read
    → serial_int 0 ar ≡ some (n, b)
    → take_content true n b (record msg { version = ar.version }) ≡ some (c, m)
    → serial_msg true ar msg ≡ some (c, set_mode sm_read m)
unfolding serial_msg read_msg set_own_mode
read_run ar msg n one small m e f = ground (arith, lt→ltb n max_nested small, lt→ltb 0 n one, e, f)

take_null : (n : ℕ) (ar msg : Archive) → take_content false n ar msg ≡ none
unfolding take_content set_own_mode
take_null n ar msg = bind_none (serial_buf (replicate n 0) n n ar) _ (λ r. refl)

read_null :
    (ar msg : Archive) (n : ℕ) {b : Archive}
    → 1 ≤ n
    → n < max_nested
    → ar.mode ≡ sm_read
    → serial_int 0 ar ≡ some (n, b)
    → serial_msg false ar msg ≡ none
unfolding serial_msg read_msg
read_null ar msg n {b} one small m e = ground (
  arith,
  lt→ltb n max_nested small,
  lt→ltb 0 n one,
  e,
  take_null n b (record msg { version = ar.version }),
)

-- The bytes that a message takes in an archive: its size twice, then its contents.
abbrev pub nested : List ℕ → List ℕ
nested c = le_bytes 4 (length c) ++ (le_bytes 4 (length c) ++ c)

stored :
    (attached : Bool) (ar msg : Archive) {bytes own : List ℕ}
    → IsValid ar.stream bytes
    → ar.mode ≡ sm_write
    → IsValid msg.stream own
    → 1 ≤ length (contents msg.stream)
    → length (contents msg.stream) < int_half
    → ar.stream.cur_pos + length (contents msg.stream) + 8 ≤ max_file
    → (ar' : Archive) × (new : List ℕ) × (serial_msg attached ar msg
        ≡ some (ar', record msg { version = ar.version }))
      × Sent ar (nested (contents msg.stream)) ar' new
stored attached ar msg {own = own} v m w one small room =
    let c : List ℕ = contents msg.stream in
    let n : ℕ = length c in
    let size : n ≡ cplen msg = length-contents w in
    let (b, nb, e, s) = serial_int-Sent ar v m n (omega (arith, room)) in
    let (d, new, f, t) =
      serial_buf-Sent b s.wrote.valid (s.mode ∙ m) own n n
        (omega (arith, size, w.holds.size, w.holds.used)) small
        (omega (arith, s.wrote.pos, room, length-le_bytes 4 n)) in
    (
      d,
      new,
      write_run attached ar msg n (sym size) one small m e (buf-Holds MemFile.cache w.holds) f,
      Sent-trans (le_bytes 4 n) (le_bytes 4 n ++ c) v s (
          subst (λ l. Sent b (le_bytes 4 n ++ l) d new)
            (ap (λ k. take k own) size ∙ sym (contents-IsValid w)) t),
    )

-- `setMode` leaves the contents and stands at their start.
reset :
    (mode : Mode) (a : Archive) {own : List ℕ}
    → IsValid a.stream own
    → ((set_mode mode a).stream ≡ record a.stream { cur_pos = 0 }) × ((set_mode mode a).mode ≡ mode)
unfolding set_mode
reset mode a v = (set_pos_inside 0 v (omega arith), refl)

reset_contents : (m : MemFile) → contents (record m { cur_pos = 0 }) ≡ contents m
unfolding contents
reset_contents m = refl

contents-reset :
    (mode : Mode) (a : Archive) {own : List ℕ}
    → IsValid a.stream own
    → contents (set_mode mode a).stream ≡ contents a.stream
contents-reset mode a v = ap contents (reset mode a v).0 ∙ reset_contents a.stream

reset-IsValid :
    (mode : Mode) (a : Archive) {own : List ℕ}
    → IsValid a.stream own
    → IsValid (set_mode mode a).stream own
reset-IsValid mode a {own} v =
    subst (λ m. IsValid m own) (sym (reset mode a v).0)
      (record { holds = v.holds; pos_in = omega arith; small = v.small })

loaded :
    (ar msg : Archive) (c t : List ℕ) {bytes own : List ℕ}
    → Reads ar bytes (nested c ++ t)
    → IsValid msg.stream own
    → 1 ≤ length c
    → length c < max_nested
    → (ar' : Archive) × (msg' : Archive) × (serial_msg true ar msg ≡ some (ar', msg'))
      × (serial_msg false ar msg ≡ none)
      × Reads ar' bytes t
      × (contents msg'.stream ≡ splice 0 c (contents msg.stream))
loaded ar msg c t {bytes} {own} r w one small =
    let n : ℕ = length c in
    let sized : Archive = record msg { version = ar.version } in
    let (e, r1) =
      serial_int-Reads 0 n ar (le_bytes 4 n ++ (c ++ t)) (omega arith)
        (subst (Reads ar bytes) (split (le_bytes 4 n) c t) r) in
    let (f, r2) = serial_buf-Reads c n (moved 4 ar) t (omega arith) r1 in
    let start = reset sm_write sized w in
    let (m, new, g, s) =
      serial_chars-Sent (set_mode sm_write sized) (reset-IsValid sm_write sized w) start.1 c n
        (omega arith) (omega arith) (omega (arith, ap (λ x. x.cur_pos) start.0)) in
    (
      moved n (moved 4 (moved 4 ar)),
      set_mode sm_read m,
      read_run ar msg n one small r.mode e (take_run (moved 4 ar) sized n f g),
      read_null ar msg n one small r.mode e,
      r2,
      contents-reset sm_read m s.wrote.valid
          ∙ s.wrote.bytes
          ∙ ap₂ (λ k l. splice k (take n c) l) (ap (λ x. x.cur_pos) start.0)
              (contents-reset sm_write sized w)
          ∙ ap (λ l. splice 0 l (contents msg.stream)) (take_self c),
    )
  where
    split : (a c t : List ℕ) → (a ++ (a ++ c)) ++ t ≡ a ++ (a ++ (c ++ t))
    split a c t = simp append_assoc

-- A well-formed message of 1 to 104857599 bytes, put by `SerialMsg` into a well-formed archive that
-- does not swap, and taken from there into another well-formed message whose `setMode` has been called,
-- arrives at the start of that message's contents; what that message held beyond these bytes stays. The
-- first message keeps its contents. A message whose `setMode` has not been called, which has no stream
-- yet, cannot take it: the code goes through a null pointer.
pub serial_msg-ReadsBack :
    (attached : Bool) (ar msg other : Archive) {bytes own old : List ℕ}
    → IsValid ar.stream bytes
    → ar.mode ≡ sm_write
    → ar.swapped ≡ false
    → IsValid msg.stream own
    → IsValid other.stream old
    → 1 ≤ length (contents msg.stream)
    → length (contents msg.stream) < max_nested
    → ar.stream.cur_pos + length (contents msg.stream) + 8 ≤ max_file
    → (ar' : Archive) × (ar'' : Archive) × (other' : Archive) × (serial_msg attached ar msg
        ≡ some (ar', record msg { version = ar.version }))
      × (serial_msg true (rewound ar.stream.cur_pos ar') other ≡ some (ar'', other'))
      × (contents other'.stream ≡ splice 0 (contents msg.stream) (contents other.stream))
      × (serial_msg false (rewound ar.stream.cur_pos ar') other ≡ none)
serial_msg-ReadsBack attached ar msg other v m plain w w' one small room =
    let c : List ℕ = contents msg.stream in
    let (ar', new, e, s) = stored attached ar msg v m w one (omega arith) room in
    let (ar'', other', f, null, r, g) =
      loaded (rewound ar.stream.cur_pos ar') other c _ (Sent-Reads ar (nested c) v plain s) w' one
        small in
    (ar', ar'', other', e, f, g, null)
