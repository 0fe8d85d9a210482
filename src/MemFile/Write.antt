-- ===== src/MemFile/Write.antt =====
-- `CIMemFile::Write`: a write at the position is a splice into the contents.
use event_server.Base.{
  ℕ, ◌+◌, ◌%◌, ◌*◌, ◌≤◌, ◌<◌, ◌≡◌, sym, ap, ◌∙◌, inl, inr, some, List, arith, leb, le-cases,
  if◌then◌else◌, le→leb, lt→leb, add_size, int_mod, length, length-take_of_le, take, splice,
}
use event_server.FastBuf
use event_server.FastBuf.{FastBuf}
use event_server.FastBuf.Holds.{grow_lem}
use event_server.MemFile.{MemFile, done, minus_one, cache, put, write, enlarged, contents}
use event_server.MemFile.Valid.{IsValid, max_alloc, max_file, contents-IsValid}
use event_server.MemFile.Put.{Wrote, put_exact}

write_room :
    (m : MemFile) (mem : List ℕ) (size : ℕ) {m' : MemFile}
    → add_size m.cur_pos size ≤ m.fast_buf.alloc_len
    → put mem size m ≡ some m'
    → write mem size m ≡ some (done (size % int_mod), m')
unfolding write
write_room m mem size h e = rw (le→leb (add_size m.cur_pos size) m.fast_buf.alloc_len h, e)

write_no_room :
    (m : MemFile) (mem : List ℕ) (size : ℕ) {g : FastBuf} {m' : MemFile}
    → m.fast_buf.alloc_len < add_size m.cur_pos size
    → FastBuf.grow cache (enlarged m.fast_buf.alloc_len size) m.fast_buf ≡ some g
    → put mem size (record m { fast_buf = g }) ≡ some m'
    → write mem size m ≡ some (minus_one, m')
unfolding write
write_no_room m mem size h eg e =
    rw (lt→leb (add_size m.cur_pos size) m.fast_buf.alloc_len h, eg, e)

-- A buffer that has grown is the same file.
pub regrown :
    {m : MemFile} {bytes : List ℕ} (n : ℕ)
    → IsValid m bytes
    → n ≤ max_alloc
    → (g : FastBuf) × (new : List ℕ) × (FastBuf.grow cache n m.fast_buf ≡ some g)
      × IsValid (record m { fast_buf = g }) new
      × (contents (record m { fast_buf = g }) ≡ contents m)
      × (n ≤ g.alloc_len)
regrown {m} {bytes} n v h =
    let (g, new, eg, G) = grow_lem cache n v.holds (omega arith) in
    let ok : IsValid (record m { fast_buf = g }) new = record {
      holds = G.holds;
      pos_in = omega (arith, G.cp, v.pos_in);
      small = omega (arith, G.alloc, v.small);
    } in
    (
      g,
      new,
      eg,
      ok,
      contents-IsValid ok ∙ ap (λ k. take k new) G.cp ∙ G.kept ∙ sym (contents-IsValid v),
      omega (arith, G.alloc),
    )

module _ {m : MemFile} {bytes : List ℕ} (mem : List ℕ) (size : ℕ) (v : IsValid m bytes)
    (h : size ≤ length mem) (w : m.cur_pos + size ≤ max_file) where
  src_length : length (take size mem) ≡ size
  src_length = length-take_of_le size mem h

  write_within :
      m.cur_pos + size ≤ m.fast_buf.alloc_len
      → (m' : MemFile) × (new : List ℕ) × (write mem size m ≡ some (done (size % int_mod), m'))
        × Wrote m (take size mem) m' new
  write_within le =
      let (m', new, e, ok) =
        put_exact (take size mem) v (omega (arith, src_length)) mem (omega (arith, src_length))
          (ap (λ k. take k mem) src_length) in
      (
        m',
        new,
        write_room m mem size (omega (arith, le, v.small))
            (ap (λ k. put mem k m) (sym src_length) ∙ e),
        ok,
      )

  write_enlarging :
      m.fast_buf.alloc_len < m.cur_pos + size
      → (m' : MemFile) × (new : List ℕ) × (write mem size m ≡ some (minus_one, m'))
        × Wrote m (take size mem) m' new
  write_enlarging lt =
      let (g, gb, eg, vg, same, big) =
        regrown ((m.fast_buf.alloc_len + size) * 2) v (omega (arith, lt, w)) in
      let m1 : MemFile = record m { fast_buf = g } in
      let (m', new, e, ok) =
        put_exact {m = m1} (take size mem) vg
          (omega (arith, src_length, big, v.pos_in, v.holds.used)) mem (omega (arith, src_length))
          (ap (λ k. take k mem) src_length) in
      (
        m',
        new,
        write_no_room m mem size (omega (arith, lt, w))
            (ap (λ k. FastBuf.grow cache k m.fast_buf) narrow ∙ eg)
            (ap (λ k. put mem k m1) (sym src_length) ∙ e),
        record {
          valid = ok.valid;
          bytes = ok.bytes ∙ ap (splice m.cur_pos (take size mem)) same;
          pos = ok.pos;
          error = ok.error;
        },
      )
    where
      narrow : enlarged m.fast_buf.alloc_len size ≡ (m.fast_buf.alloc_len + size) * 2
      narrow = omega (arith, w, v.small)

  -- Writing `size` bytes to a well-formed file, where the argument's memory has that many and the
  -- write ends at most at `max_file`, succeeds: the contents get those bytes at the
  -- position, over what stood there and beyond the end if they reach it, and the position moves
  -- behind them. What is returned is the size as
  -- an `int`, its low 32 bits, while the array has room, and -1 once it has to grow.
  pub write_lem :
      (m' : MemFile) × (new : List ℕ) × (write mem size m
        ≡ some (
          if leb (m.cur_pos + size) m.fast_buf.alloc_len then done (size % int_mod) else minus_one,
          m',
        ))
      × Wrote m (take size mem) m' new
  write_lem = elim (le-cases (m.cur_pos + size) m.fast_buf.alloc_len) [
    | inl le ↦ rw (le→leb (m.cur_pos + size) m.fast_buf.alloc_len le) (write_within le)
    | inr lt ↦ rw (lt→leb (m.cur_pos + size) m.fast_buf.alloc_len lt) (write_enlarging lt)
  ]
