-- ===== src/Archive/Reads.antt =====
-- Reading one thing after another: an archive in read mode, by the bytes that it has ahead.
use event_server.Base.{
  ℕ, ◌+◌, ◌^◌, ◌≤◌, ◌<◌, ◌≡◌, refl, sym, ap, ◌∙◌, subst, true, false, some, List, ◌++◌, arith,
  length, length-append, length-drop, take, drop, take-append_le, take_self, drop-append_add,
  drop-drop, replicate, length-replicate, le_bytes, from_le, from_le-le_bytes_4, length-le_bytes,
  int_half, int_le, size_of_int, lt→ltb, splice_end,
}
use event_server.Base.Memory.{store, store_inside}
use event_server.MemFile
use event_server.MemFile.{MemFile, Reply, done, minus_one, contents}
use event_server.MemFile.Valid.{IsValid, length-contents, read_inside}
use event_server.Archive.{Archive, sm_read, through, fetch}
use event_server.Archive.Serial.{serial_int, serial_buf, read_into, if_read}

-- The bytes from the position on are `ahead`.
pub record Reads (a : Archive) (bytes ahead : List ℕ) : Type 0 where
  pub valid : IsValid a.stream bytes
  pub ahead_eq : drop a.stream.cur_pos (contents a.stream) ≡ ahead
  pub mode : a.mode ≡ sm_read
  pub plain : a.swapped ≡ false

-- The archive after `n` bytes have been read.
abbrev pub moved : ℕ → Archive → Archive
moved n a = record a { stream = record a.stream { cur_pos = a.stream.cur_pos + n } }

contents-moved : (n : ℕ) (a : Archive) → contents (moved n a).stream ≡ contents a.stream
unfolding contents
contents-moved n a = refl

module _ (a : Archive) {bytes : List ℕ} (s t : List ℕ) (r : Reads a bytes (s ++ t)) where
  room : a.stream.cur_pos + length s ≤ length (contents a.stream)
  room = omega (
    arith,
    length-drop a.stream.cur_pos (contents a.stream),
    ap length r.ahead_eq,
    length-append s t,
    length-contents r.valid,
    r.valid.pos_in,
  )

  pub read_ahead : MemFile.read (length s) a.stream ≡ some (done s, (moved (length s) a).stream)
  read_ahead =
      read_inside (length s) r.valid room
      ∙ ap (λ l. some (done l, (moved (length s) a).stream))
          (ap (take (length s)) r.ahead_eq
            ∙ take-append_le (length s) s t (omega arith)
            ∙ take_self s)

  pub Reads-moved : Reads (moved (length s) a) bytes t
  Reads-moved = record {
    valid = record {
      holds = r.valid.holds;
      pos_in = omega (arith, room, length-contents r.valid);
      small = r.valid.small;
    };
    ahead_eq =
        ap (drop (a.stream.cur_pos + length s)) (contents-moved (length s) a)
        ∙ sym (drop-drop a.stream.cur_pos (length s) (contents a.stream))
        ∙ ap (drop (length s)) r.ahead_eq
        ∙ ap (λ k. drop k (s ++ t)) (omega arith)
        ∙ drop-append_add 0 s t;
    mode = r.mode;
    plain = r.plain;
  }

int_run :
    (x : ℕ) (a : Archive) {s : List ℕ} {m : MemFile}
    → a.mode ≡ sm_read
    → a.swapped ≡ false
    → MemFile.read 4 a.stream ≡ some (done s, m)
    → serial_int x a ≡ some (from_le s, record a { stream = m })
unfolding serial_int fetch if_read through
int_run x a e f g = ground (arith, g)

-- An integer that lies ahead is read, and the archive stands behind it.
pub serial_int-Reads :
    (x v : ℕ) (a : Archive) {bytes : List ℕ} (t : List ℕ)
    → v < 2 ^ 32
    → Reads a bytes (le_bytes 4 v ++ t)
    → (serial_int x a ≡ some (v, moved 4 a)) × Reads (moved 4 a) bytes t
serial_int-Reads x v a {bytes} t h r =
    let (e, r') =
      subst
        (λ k.
          (MemFile.read k a.stream ≡ some (done (le_bytes 4 v), (moved k a).stream))
          × Reads (moved k a) bytes t)
        (length-le_bytes 4 v) (read_ahead a (le_bytes 4 v) t r, Reads-moved a (le_bytes 4 v) t r) in
    (int_run x a r.mode r.plain e ∙ ap (λ k. some (k, moved 4 a)) (from_le-le_bytes_4 v h), r')

buf_run :
    (str : List ℕ) (len n : ℕ) (a : Archive) {zeroed s str' : List ℕ} {b : Archive} {m : MemFile}
    → a.mode ≡ sm_read
    → n < int_half
    → store 0 (replicate n 0) str ≡ some zeroed
    → serial_int 0 a ≡ some (n, b)
    → MemFile.read n b.stream ≡ some (done s, m)
    → store 0 s zeroed ≡ some str'
    → serial_buf str len n a ≡ some (str', record b { stream = m })
unfolding serial_buf read_into
buf_run str len n a {s = s} {b = b} {m = m} e h f g k l =
    ground (arith, lt→ltb n int_half h, f, g, same, narrow, narrowed, l)
  where
    same : int_le n n ≡ true
    same = ground arith

    narrow : size_of_int n ≡ n
    narrow = ground arith

    narrowed : MemFile.read (size_of_int n) b.stream ≡ some (done s, m)
    narrowed = ap (λ i. MemFile.read i b.stream) narrow ∙ k

-- A copy over an array of the same size replaces it.
store_whole : (src dst : List ℕ) → length dst ≡ length src → store 0 src dst ≡ some src
store_whole src dst e =
    store_inside 0 src dst (omega (arith, e)) ∙ ap some (splice_end 0 src dst (omega (arith, e)))

-- A text with its size before it is read into an array of that size.
pub serial_buf-Reads :
    (c : List ℕ) (len : ℕ) (a : Archive) {bytes : List ℕ} (t : List ℕ)
    → length c < int_half
    → Reads a bytes (le_bytes 4 (length c) ++ (c ++ t))
    → (serial_buf (replicate (length c) 0) len (length c) a
        ≡ some (c, moved (length c) (moved 4 a)))
      × Reads (moved (length c) (moved 4 a)) bytes t
serial_buf-Reads c len a t h r =
    let n : ℕ = length c in
    let zeros : List ℕ = replicate n 0 in
    let (e, r') = serial_int-Reads 0 n a (c ++ t) (omega arith) r in
    (
      buf_run zeros len n a r.mode h (store_whole zeros zeros refl) e
          (read_ahead (moved 4 a) c t r') (store_whole c zeros (length-replicate {A = ℕ} n 0)),
      Reads-moved (moved 4 a) c t r',
    )
