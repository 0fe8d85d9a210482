-- ===== src/Server/Received.antt =====
-- What a connection's message holds after `read_cb` and `read_cb2`.
use event_server.Base.{
  ◌<◌, ◌%◌, int_half, int_mod, size_of_int, ℕ, ◌+◌, ◌≤◌, ◌≡◌, refl, ap, subst, ◌∙◌, Option, some,
  List, [], ◌∷◌, ◌++◌, arith, le-cases, inl, inr, length, length-append, length-splice, take_self,
  take_all, splice, splice_end, le→leb,
}
use event_server.MemFile
use event_server.MemFile.{MemFile, contents}
use event_server.MemFile.Valid.{IsValid, max_file, length-contents}
use event_server.MemFile.Position.{length-splice_ge}
use event_server.Archive.{Archive, Mode, sm_write, set_pos, initial}
use event_server.Archive.Serial.{write}
use event_server.Archive.Sent.{Sent, Sent-nil, Sent-trans, write-Sent}
use event_server.WebSocket.{cplen}
use event_server.Server.{set_message_mode, receive, read_cb, read_cb2}

-- All the bytes that have come in.
abbrev pub joined : List (List ℕ) → List ℕ
joined [] = []
joined (line ∷ more) = line ++ joined more

-- What `bufferevent_read` delivers: no more than the 1023 bytes it is asked for.
pub data Lines : List (List ℕ) → Type 0 where
  no_line : Lines []
  one_line :
      (line : List ℕ) (more : List (List ℕ)) → length line ≤ 1023 → Lines more → Lines (line ∷ more)

step :
    (line : List ℕ) (more : List (List ℕ)) (msg : Archive) {msg1 : Archive}
    → write line (length line) msg ≡ some msg1
    → receive (line ∷ more) msg ≡ receive more msg1
unfolding receive
step line more msg e = rw e refl

done_all : (msg : Archive) → receive [] msg ≡ some msg
unfolding receive
done_all msg = refl

pub receive-Sent :
    (chunks : List (List ℕ)) (msg : Archive) {bytes : List ℕ}
    → Lines chunks
    → IsValid msg.stream bytes
    → msg.mode ≡ sm_write
    → msg.stream.cur_pos + length (joined chunks) ≤ max_file
    → (msg1 : Archive) × (new : List ℕ) × (receive chunks msg ≡ some msg1)
      × Sent msg (joined chunks) msg1 new
receive-Sent [] msg {bytes} no_line v m room = (msg, bytes, done_all msg, Sent-nil msg v)
receive-Sent (line ∷ more) msg {bytes} (one_line _ _ small lines) v m room =
    let size = length-append line (joined more) in
    let (msg1, new1, e1, sent1) =
      write-Sent msg v m line (length line) (omega arith) (omega arith) (omega (arith, size)) in
    let sent : Sent msg line msg1 new1 = subst (λ l. Sent msg l msg1 new1) (take_self line) sent1 in
    let (msg2, new2, e2, sent2) =
      receive-Sent more msg1 lines sent.wrote.valid (sent.mode ∙ m)
        (omega (arith, size, sent.wrote.pos)) in
    (msg2, new2, step line more msg e1 ∙ e2, Sent-trans line (joined more) v sent sent2)

-- `setMode` and `setPos` to a place in the contents.
unfoldable pub moved_to : Mode → ℕ → Archive → Archive
moved_to mode pos msg = record msg { stream = record msg.stream { cur_pos = pos }; mode = mode }

module _ (mode : Mode) (msg : Archive) where
  pub set_mode_lem : set_message_mode mode msg ≡ moved_to mode 0 msg
  unfolding set_message_mode initial MemFile.set_pos moved_to
  set_mode_lem = rw (le→leb 0 msg.stream.fast_buf.cp_len (omega arith)) refl

  set_pos_lem :
      (pos : ℕ)
      → pos ≤ msg.stream.fast_buf.cp_len
      → set_pos pos (set_message_mode mode msg) ≡ moved_to mode pos msg
  unfolding set_pos MemFile.set_pos moved_to
  set_pos_lem pos h = rw (set_mode_lem, le→leb pos msg.stream.fast_buf.cp_len h) refl

pub moved_to-IsValid :
    (mode : Mode) (pos : ℕ) (msg : Archive) {bytes : List ℕ}
    → IsValid msg.stream bytes
    → pos ≤ msg.stream.fast_buf.cp_len
    → IsValid (moved_to mode pos msg).stream bytes
unfolding moved_to
moved_to-IsValid mode pos msg v h = record { holds = v.holds; pos_in = h; small = v.small }

pub contents-moved_to :
    (mode : Mode) (pos : ℕ) (msg : Archive)
    → contents (moved_to mode pos msg).stream ≡ contents msg.stream
unfolding moved_to contents
contents-moved_to mode pos msg = refl

longer : (off : ℕ) (src dst : List ℕ) → off ≤ length dst → length dst ≤ length (splice off src dst)
longer off src dst h = elim (le-cases (off + length src) (length dst)) [
  | inl le ↦ omega (arith, length-splice off src dst le)
  | inr gt ↦ omega (arith, length-splice_ge off src dst h)
]

-- Reading from the place `pos` on, and going back.
received :
    (chunks : List (List ℕ)) (pos : ℕ) (msg : Archive) {bytes : List ℕ}
    → Lines chunks
    → IsValid msg.stream bytes
    → pos ≤ msg.stream.fast_buf.cp_len
    → pos + length (joined chunks) ≤ max_file
    → (msg1 : Archive) × (new : List ℕ) × (receive chunks (moved_to sm_write pos msg) ≡ some msg1)
      × (set_pos msg.stream.cur_pos (set_message_mode msg.mode msg1)
          ≡ moved_to msg.mode msg.stream.cur_pos msg1)
      × IsValid (moved_to msg.mode msg.stream.cur_pos msg1).stream new
      × (contents msg1.stream ≡ splice pos (joined chunks) (contents msg.stream))
unfolding moved_to
received chunks pos msg lines v h room =
    let (msg1, new, e, sent) =
      receive-Sent chunks (moved_to sm_write pos msg) lines (moved_to-IsValid sm_write pos msg v h)
        refl room in
    let bytes_in : contents msg1.stream ≡ splice pos (joined chunks) (contents msg.stream) =
      sent.wrote.bytes ∙ ap (splice pos (joined chunks)) (contents-moved_to sm_write pos msg) in
    let grows : msg.stream.cur_pos ≤ msg1.stream.fast_buf.cp_len = omega (
      arith,
      v.pos_in,
      length-contents v,
      length-contents {m = msg1.stream} sent.wrote.valid,
      ap length bytes_in,
      longer pos (joined chunks) (contents msg.stream) (omega (arith, length-contents v)),
    ) in
    (
      msg1,
      new,
      e,
      set_pos_lem msg.mode msg1 msg.stream.cur_pos grows,
      moved_to-IsValid msg.mode msg.stream.cur_pos msg1 sent.wrote.valid grows,
      bytes_in,
    )

-- What a callback has made of `msg`: `held` is in it, its mode and its position are as they were.
abbrev pub Received : Option Archive → Archive → List ℕ → Type 0
Received served msg held =
    (msg1 : Archive) × (new : List ℕ) × (served ≡ some msg1)
    × IsValid msg1.stream new
    × (contents msg1.stream ≡ held)
    × (msg1.mode ≡ msg.mode)
    × (msg1.stream.cur_pos ≡ msg.stream.cur_pos)

back_in_place :
    (msg msg1 : Archive) {served : Option Archive} {new held : List ℕ}
    → served ≡ some (moved_to msg.mode msg.stream.cur_pos msg1)
    → IsValid (moved_to msg.mode msg.stream.cur_pos msg1).stream new
    → contents msg1.stream ≡ held
    → Received served msg held
unfolding moved_to
back_in_place msg msg1 {new = new} e ok same = (
  moved_to msg.mode msg.stream.cur_pos msg1,
  new,
  e,
  ok,
  contents-moved_to msg.mode msg.stream.cur_pos msg1 ∙ same,
  refl,
  refl,
)

size_of_small : (n : ℕ) → n < int_half → size_of_int (n % int_mod) ≡ n
size_of_small n h = ap size_of_int low ∙ ground arith
  where
    low : n % int_mod ≡ n
    low = omega arith

read_run :
    (chunks : List (List ℕ)) (msg : Archive) {msg1 msg2 : Archive}
    → cplen msg < int_half
    → msg.stream.cur_pos < int_half
    → receive chunks (moved_to sm_write (cplen msg) msg) ≡ some msg1
    → set_pos msg.stream.cur_pos (set_message_mode msg.mode msg1) ≡ msg2
    → read_cb chunks msg ≡ some msg2
unfolding read_cb
read_run chunks msg small old e f = rw (
  size_of_small (cplen msg) small,
  size_of_small msg.stream.cur_pos old,
  set_pos_lem sm_write msg (cplen msg) (omega arith),
  e,
  f,
)

read2_run :
    (chunks : List (List ℕ)) (msg : Archive) {msg1 msg2 : Archive}
    → msg.stream.cur_pos < int_half
    → receive chunks (moved_to sm_write 0 msg) ≡ some msg1
    → set_pos msg.stream.cur_pos (set_message_mode msg.mode msg1) ≡ msg2
    → read_cb2 chunks msg ≡ some msg2
unfolding read_cb2
read2_run chunks msg old e f =
    rw (size_of_small msg.stream.cur_pos old, set_mode_lem sm_write msg, e, f)

-- A well-formed message that `read_cb` has served is well-formed, holds what it held and behind that
-- all the bytes that came in, in their order, and has the mode and the position that it had. One that
-- `read_cb2` has served has these bytes over the start of what it held. For any number of reads of at
-- most 1023 bytes, if an `int` holds the size of the message with all that comes in.
pub read_cb_lem :
    (chunks : List (List ℕ)) (msg : Archive) {bytes : List ℕ}
    → Lines chunks
    → IsValid msg.stream bytes
    → cplen msg + length (joined chunks) < int_half
    → Received (read_cb chunks msg) msg (contents msg.stream ++ joined chunks)
      × Received (read_cb2 chunks msg) msg (splice 0 (joined chunks) (contents msg.stream))
read_cb_lem chunks msg lines v room =
    let (msg1, new1, e1, f1, ok1, bytes1) =
      received chunks (cplen msg) msg lines v (omega arith) (omega (arith, room)) in
    let (msg2, new2, e2, f2, ok2, bytes2) =
      received chunks 0 msg lines v (omega arith) (omega (arith, room)) in
    (
      back_in_place msg msg1
          (read_run chunks msg (omega (arith, room)) (omega (arith, room, v.pos_in)) e1 f1) ok1
          (bytes1
            ∙ splice_end (cplen msg) (joined chunks) (contents msg.stream)
                (omega (arith, length-contents v))
            ∙ ap (λ l. l ++ joined chunks)
                (take_all (cplen msg) (contents msg.stream) (omega (arith, length-contents v)))),
      back_in_place msg msg2 (read2_run chunks msg (omega (arith, room, v.pos_in)) e2 f2) ok2
          bytes2,
    )
