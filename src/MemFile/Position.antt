-- ===== src/MemFile/Position.antt =====
-- Moving in a memory file, dropping its head, and reading back what was written.
use event_server.Base.{
  ℕ, ◌+◌, ◌-◌, ◌≤◌, ◌<◌, ◌≡◌, refl, sym, ap, ◌∙◌, subst, inl, inr, some, List, [], ◌∷◌, ◌++◌, arith,
  le-cases, le→leb, lt→leb, length, length-take_of_le, length-splice, take, drop, splice,
  length-drop, length-append, take-splice_before, take-splice_at, take-append_le, drop-append_add,
  drop_all, drop-take_add, take_all,
}
use event_server.Base.Memory.{load_inside}
use event_server.FastBuf
use event_server.FastBuf.{FastBuf}
use event_server.FastBuf.Holds.{buf-Holds, poke_lem, setcplen_lem}
use event_server.MemFile.{
  MemFile, Reply, done, cache, read, write, set_pos, remove_head_buffer, contents,
}
use event_server.MemFile.Valid.{IsValid, max_file, contents-IsValid, length-contents, read_inside}
use event_server.MemFile.Put.{Wrote}
use event_server.MemFile.Write.{write_lem}

pub set_pos-IsValid :
    {m : MemFile} {bytes : List ℕ} (pos : ℕ) → IsValid m bytes → IsValid (set_pos pos m) bytes
unfolding set_pos
set_pos-IsValid {m} pos v = elim (le-cases pos m.fast_buf.cp_len) [
  | inl le ↦
      rw (le→leb pos m.fast_buf.cp_len le)
        (record { holds = v.holds; pos_in = le; small = v.small })
  | inr lt ↦ rw (lt→leb pos m.fast_buf.cp_len lt) v
]

pub set_pos_inside :
    {m : MemFile} {bytes : List ℕ} (pos : ℕ)
    → IsValid m bytes
    → pos ≤ length (contents m)
    → set_pos pos m ≡ record m { cur_pos = pos }
unfolding set_pos
set_pos_inside {m} pos v h = rw (le→leb pos m.fast_buf.cp_len (omega (arith, length-contents v)))

-- The bytes at a splice are the spliced ones.
take-drop-splice :
    (off : ℕ) (src dst : List ℕ)
    → off ≤ length dst
    → take (length src) (drop off (splice off src dst)) ≡ src
take-drop-splice off src dst h =
    sym (drop-take_add off (length src) (splice off src dst))
    ∙ ap (drop off) (take-splice_at off src dst h)
    ∙ ap (λ k. drop k (take off dst ++ src)) e
    ∙ drop-append_add 0 (take off dst) src
  where
    e : off ≡ length (take off dst) + 0
    e = omega (arith, length-take_of_le off dst h)

pub length-splice_ge :
    (off : ℕ) (src dst : List ℕ) → off ≤ length dst → off + length src ≤ length (splice off src dst)
length-splice_ge off src dst h = omega (
  arith,
  length-append (take off dst) (src ++ drop (off + length src) dst),
  length-append src (drop (off + length src) dst),
  length-take_of_le off dst h,
)

pub reread :
    {m m' : MemFile} {bytes new : List ℕ} (src : List ℕ)
    → IsValid m bytes
    → Wrote m src m' new
    → read (length src) (set_pos m.cur_pos m')
      ≡ some (done src, record m' { cur_pos = m.cur_pos + length src })
unfolding contents
reread {m} {m'} {new = new} src v wrote =
    ap (read (length src)) (set_pos_inside m.cur_pos wrote.valid (omega (arith, far)))
    ∙ read_inside (length src) back far
    ∙ ap (λ l. some (done l, record m' { cur_pos = m.cur_pos + length src }))
        (ap (λ l. take (length src) (drop m.cur_pos l)) (same ∙ wrote.bytes)
          ∙ take-drop-splice m.cur_pos src (contents m) pos_in)
  where
    pos_in : m.cur_pos ≤ length (contents m)
    pos_in = omega (arith, length-contents v, v.pos_in)

    far' : m.cur_pos + length src ≤ length (contents m')
    far' = omega (arith, ap length wrote.bytes, length-splice_ge m.cur_pos src (contents m) pos_in)

    same : contents (record m' { cur_pos = m.cur_pos }) ≡ contents m'
    same = refl

    far : m.cur_pos + length src ≤ length (contents (record m' { cur_pos = m.cur_pos }))
    far = far'

    back : IsValid (record m' { cur_pos = m.cur_pos }) new
    back = record {
      holds = wrote.valid.holds;
      pos_in = omega (arith, far', length-contents wrote.valid);
      small = wrote.valid.small;
    }

-- What has been written to a well-formed file, up to `max_file`, at a position is read back from there, whether or not the write had to
-- enlarge the array; reading changes no contents.
pub read-write :
    {m : MemFile} {bytes : List ℕ} (src : List ℕ)
    → IsValid m bytes
    → m.cur_pos + length src ≤ max_file
    → (r : Reply ℕ) × (m' : MemFile) × (m'' : MemFile) × (write src (length src) m ≡ some (r, m'))
      × (read (length src) (set_pos m.cur_pos m') ≡ some (done src, m''))
      × (contents m'' ≡ contents m')
unfolding contents
read-write {m} {bytes} src v w =
    let (m', new, e, ok) = write_lem src (length src) v (omega arith) w in
    (
      _,
      m',
      record m' { cur_pos = m.cur_pos + length src },
      e,
      reread src v (subst (λ l. Wrote m l m' new) (take_all (length src) src (omega arith)) ok),
      refl,
    )

remove_head_all :
    (m : MemFile) {f : FastBuf} (size : ℕ)
    → m.fast_buf.cp_len ≤ size
    → FastBuf.setcplen cache 0 m.fast_buf ≡ some f
    → remove_head_buffer size m ≡ some (record m { fast_buf = f; cur_pos = 0 })
unfolding remove_head_buffer
remove_head_all m size h e = rw (le→leb m.fast_buf.cp_len size h, e)

remove_head_some :
    (m : MemFile) {moved sized : FastBuf} {bytes : List ℕ} (size : ℕ)
    → size < m.fast_buf.cp_len
    → m.fast_buf.cp_len ≤ length bytes
    → FastBuf.buf cache m.fast_buf ≡ some bytes
    → FastBuf.poke cache 0 (take (m.fast_buf.cp_len - size) (drop size bytes)) m.fast_buf
      ≡ some moved
    → FastBuf.setcplen cache (moved.cp_len - size) moved ≡ some sized
    → remove_head_buffer size m ≡ some (record m { fast_buf = sized; cur_pos = 0 })
unfolding remove_head_buffer
remove_head_some m {bytes = bytes} size h k eb ep es = rw (
  lt→leb m.fast_buf.cp_len size h,
  eb,
  load_inside size (m.fast_buf.cp_len - size) bytes (omega arith),
  ep,
  es,
)

removed_head :
    (n cp size : ℕ) (bytes : List ℕ)
    → n ≡ cp - size
    → size < cp
    → cp < length bytes
    → take n (splice n (0 ∷ []) (splice 0 (take (cp - size) (drop size bytes)) bytes))
      ≡ drop size (take cp bytes)
removed_head n cp size bytes e h k =
    take-splice_before n n (0 ∷ []) (splice 0 rest bytes) (omega arith)
      (omega (arith, length-splice 0 rest bytes (omega (arith, len))))
    ∙ take-append_le n rest _ (omega (arith, len))
    ∙ take_all n rest (omega (arith, len))
    ∙ sym (drop-take_add size (cp - size) bytes)
    ∙ ap (λ j. drop size (take j bytes)) e'
  where
    rest : List ℕ
    rest = take (cp - size) (drop size bytes)

    len : length rest ≡ cp - size
    len = length-take_of_le (cp - size) (drop size bytes) (omega (arith, length-drop size bytes))

    e' : size + (cp - size) ≡ cp
    e' = omega arith

-- Taking `size` bytes off the head of a well-formed file succeeds and leaves a well-formed one with the rest of the contents, none if there are no more, and the position at its start.
pub remove_head_buffer_lem :
    {m : MemFile} {bytes : List ℕ} (size : ℕ)
    → IsValid m bytes
    → (m' : MemFile) × (new : List ℕ) × (remove_head_buffer size m ≡ some m')
      × IsValid m' new
      × (contents m' ≡ drop size (contents m))
      × (m'.cur_pos ≡ 0)
remove_head_buffer_lem {m} {bytes} size v = elim (le-cases m.fast_buf.cp_len size) [
  | inl le ↦
      let (f, e, hf, cf, af) = setcplen_lem cache 0 v.holds (omega arith) in
      let m' : MemFile = record m { fast_buf = f; cur_pos = 0 } in
      let ok : IsValid m' (splice 0 (0 ∷ []) bytes) = record {
        holds = hf;
        pos_in = omega arith;
        small = omega (arith, af, v.small);
      } in
      (
        m',
        splice 0 (0 ∷ []) bytes,
        remove_head_all m size le e,
        ok,
        contents-IsValid ok
            ∙ ap (λ n. take n (splice 0 (0 ∷ []) bytes)) cf
            ∙ sym (drop_all size (contents m) (omega (arith, length-contents v))),
        refl,
      )
  | inr lt ↦
      let rest : List ℕ = take (m.fast_buf.cp_len - size) (drop size bytes) in
      let len : length rest ≡ m.fast_buf.cp_len - size =
        length-take_of_le (m.fast_buf.cp_len - size) (drop size bytes)
          (omega (arith, length-drop size bytes)) in
      let (f, e, hf, cf, af) = poke_lem cache 0 rest v.holds (omega (arith, len)) in
      let n : ℕ = f.cp_len - size in
      let (g, e', hg, cg, ag) = setcplen_lem cache n hf (omega (arith, cf, af, v.holds.used)) in
      let m' : MemFile = record m { fast_buf = g; cur_pos = 0 } in
      let ok : IsValid m' (splice n (0 ∷ []) (splice 0 rest bytes)) = record {
        holds = hg;
        pos_in = omega arith;
        small = omega (arith, ag, af, v.small);
      } in
      (
        m',
        splice n (0 ∷ []) (splice 0 rest bytes),
        remove_head_some m size lt (omega (arith, v.holds.size, v.holds.used))
            (buf-Holds cache v.holds) e e',
        ok,
        contents-IsValid ok
            ∙ ap (λ k. take k (splice n (0 ∷ []) (splice 0 rest bytes))) cg
            ∙ removed_head n m.fast_buf.cp_len size bytes (omega (arith, cf)) lt
                (omega (arith, v.holds.size, v.holds.used))
            ∙ ap (drop size) (sym (contents-IsValid v)),
        refl,
      )
]
