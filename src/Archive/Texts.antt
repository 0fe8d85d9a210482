-- ===== src/Archive/Texts.antt =====
-- Integers and texts that go out, and what is ahead once the archive is turned back to them.
use event_server.Base.{
  ℕ, ◌+◌, ◌≤◌, ◌<◌, ◌≡◌, refl, sym, ap, ◌∙◌, subst, some, List, ◌++◌, arith, length,
  length-take_of_le, take, drop, drop-append_add, splice, le_bytes, length-le_bytes, int_half,
  false,
}
use event_server.MemFile
use event_server.MemFile.{MemFile, Reply, contents}
use event_server.MemFile.Valid.{IsValid, max_file, length-contents}
use event_server.MemFile.Write.{write_lem}
use event_server.Archive.{Archive, sm_read, sm_write, emit, set_mode, set_pos}
use event_server.Archive.Transfer.{emit_lem, rewound}
use event_server.Archive.Serial.{serial_int, serial_buf, serial_chars, write_from}
use event_server.Archive.Sent.{Sent, Sent-trans}
use event_server.Archive.Reads.{Reads}

write_from_run :
    (str : List ℕ) (len : ℕ) (a : Archive) {r : Reply ℕ} {m : MemFile}
    → len < int_half
    → MemFile.write str len a.stream ≡ some (r, m)
    → write_from str len a ≡ some (record a { stream = m })
unfolding write_from
write_from_run str len a h e = ground arith

int_sent_run :
    (v : ℕ) (a : Archive) {b : Archive}
    → a.mode ≡ sm_write
    → emit 4 v a ≡ some b
    → serial_int v a ≡ some (v, b)
unfolding serial_int
int_sent_run v a m e = ground arith

buf_sent_run :
    (str : List ℕ) (len max_buf : ℕ) (a : Archive) {b c : Archive}
    → a.mode ≡ sm_write
    → serial_int len a ≡ some (len, b)
    → write_from str len b ≡ some c
    → serial_buf str len max_buf a ≡ some (str, c)
unfolding serial_buf
buf_sent_run str len max_buf a m e f = ground (arith, e, f)

chars_sent_run :
    (str : List ℕ) (len : ℕ) (a : Archive) {b : Archive}
    → a.mode ≡ sm_write
    → write_from str len a ≡ some b
    → serial_chars str len a ≡ some (str, b)
unfolding serial_chars
chars_sent_run str len a m e = ground (arith, e)

module _ (a : Archive) {bytes : List ℕ} (valid : IsValid a.stream bytes)
    (m : a.mode ≡ sm_write) where
  pub serial_int-Sent :
      (v : ℕ)
      → a.stream.cur_pos + 4 ≤ max_file
      → (a' : Archive) × (new : List ℕ) × (serial_int v a ≡ some (v, a'))
        × Sent a (le_bytes 4 v) a' new
  serial_int-Sent v room =
      let (a', new, e, ok, same) = emit_lem a 4 v valid room in
      (
        a',
        new,
        int_sent_run v a m e,
        record { wrote = ok; mode = ap (λ x. x.mode) same; swapped = ap (λ x. x.swapped) same },
      )

  pub serial_buf-Sent :
      (str : List ℕ) (len max_buf : ℕ)
      → len ≤ length str
      → len < int_half
      → a.stream.cur_pos + 4 + len ≤ max_file
      → (a' : Archive) × (new : List ℕ) × (serial_buf str len max_buf a ≡ some (str, a'))
        × Sent a (le_bytes 4 len ++ take len str) a' new
  serial_buf-Sent str len max_buf h k room =
      let (b, nb, e, s) = serial_int-Sent len (omega (arith, room)) in
      let (c, new, f, ok) =
        write_lem str len s.wrote.valid h
          (omega (arith, s.wrote.pos, room, length-le_bytes 4 len)) in
      (
        record b { stream = c },
        new,
        buf_sent_run str len max_buf a m e (write_from_run str len b k f),
        Sent-trans (le_bytes 4 len) (take len str) valid s
            (record { wrote = ok; mode = refl; swapped = refl }),
      )

  pub serial_chars-Sent :
      (str : List ℕ) (len : ℕ)
      → len ≤ length str
      → len < int_half
      → a.stream.cur_pos + len ≤ max_file
      → (a' : Archive) × (new : List ℕ) × (serial_chars str len a ≡ some (str, a'))
        × Sent a (take len str) a' new
  serial_chars-Sent str len h k room =
      let (c, new, f, ok) = write_lem str len valid h room in
      (
        record a { stream = c },
        new,
        chars_sent_run str len a m (write_from_run str len a k f),
        record { wrote = ok; mode = refl; swapped = refl },
      )

-- Turned back to where the bytes went, the archive has them ahead.
rewound-stream_at :
    (pos : ℕ) (a : Archive) {bytes : List ℕ}
    → IsValid a.stream bytes
    → pos ≤ length (contents a.stream)
    → (rewound pos a).stream ≡ record a.stream { cur_pos = pos }
unfolding rewound set_pos set_mode MemFile.set_pos
rewound-stream_at pos a v h = ground (arith, length-contents v)

drop-splice_at :
    (off : ℕ) (src dst : List ℕ)
    → off ≤ length dst
    → drop off (splice off src dst) ≡ src ++ drop (off + length src) dst
drop-splice_at off src dst h =
    ap (λ k. drop k (splice off src dst)) (omega (arith, length-take_of_le off dst h))
    ∙ drop-append_add 0 (take off dst) (src ++ drop (off + length src) dst)

moved_to :
    (pos : ℕ) (m : MemFile) {bytes : List ℕ}
    → IsValid m bytes
    → pos ≤ length (contents m)
    → IsValid (record m { cur_pos = pos }) bytes
moved_to pos m v h = record {
  holds = v.holds;
  pos_in = omega (arith, length-contents v);
  small = v.small;
}

contents_at : (pos : ℕ) (m : MemFile) → contents (record m { cur_pos = pos }) ≡ contents m
unfolding contents
contents_at pos m = refl

rewound_kept :
    (pos : ℕ) (a : Archive)
    → ((rewound pos a).mode ≡ sm_read) × ((rewound pos a).swapped ≡ a.swapped)
unfolding rewound set_pos set_mode
rewound_kept pos a = (refl, refl)

pub Sent-Reads :
    (a : Archive) (bs : List ℕ) {bytes new : List ℕ} {a' : Archive}
    → IsValid a.stream bytes
    → a.swapped ≡ false
    → Sent a bs a' new
    → Reads
        (rewound a.stream.cur_pos a')
        new
        (bs ++ drop (a.stream.cur_pos + length bs) (contents a.stream))
Sent-Reads a bs {new = new} {a' = a'} v plain s = record {
  valid = subst (λ m. IsValid m new) (sym back) (moved_to pos a'.stream s.wrote.valid inside);
  ahead_eq =
      ap (λ m. drop m.cur_pos (contents m)) back
      ∙ ap (drop pos) (contents_at pos a'.stream ∙ s.wrote.bytes)
      ∙ drop-splice_at pos bs (contents a.stream) (omega (arith, length-contents v, v.pos_in));
  mode = (rewound_kept pos a').0;
  plain = (rewound_kept pos a').1 ∙ s.swapped ∙ plain;
}
  where
    pos : ℕ
    pos = a.stream.cur_pos

    inside : pos ≤ length (contents a'.stream)
    inside = omega (arith, s.wrote.pos, s.wrote.valid.pos_in, length-contents s.wrote.valid)

    back : (rewound pos a').stream ≡ record a'.stream { cur_pos = pos }
    back = rewound-stream_at pos a' s.wrote.valid inside
