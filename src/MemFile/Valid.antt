-- ===== src/MemFile/Valid.antt =====
-- A well-formed memory file, and reading from it.
use event_server.Base.{
  ℕ, ◌+◌, ◌^◌, ◌≤◌, ◌<◌, ◌≡◌, ◌∙◌, ap, inl, inr, le-cases, leb, if◌then◌else◌, none, some,
  slice-take, List, arith, le→leb, lt→leb, size_mod, add_size, length, length-take, take, drop,
  replicate,
}
use event_server.Base.Memory.{load_inside, load_outside}
use event_server.FastBuf
use event_server.FastBuf.Holds.{Holds, buf-Holds, contents-Holds, empty-Holds, release-Holds}
use event_server.MemFile.{MemFile, done, minus_one, err_read, cache, empty, release, read, contents}

-- Arrays stay far below the range of `size_t`, as long as no write ends beyond `max_file`.
abbrev pub max_alloc : ℕ
max_alloc = 2 ^ 61

abbrev pub max_file : ℕ
max_file = 2 ^ 58

pub record IsValid (m : MemFile) (bytes : List ℕ) : Type 0 where
  pub holds : Holds cache m.fast_buf bytes
  pub pos_in : m.cur_pos ≤ m.fast_buf.cp_len
  pub small : m.fast_buf.alloc_len ≤ max_alloc

pub contents-IsValid :
    {m : MemFile} {bytes : List ℕ} → IsValid m bytes → contents m ≡ take m.fast_buf.cp_len bytes
unfolding contents
contents-IsValid v = contents-Holds cache v.holds

pub length-contents :
    {m : MemFile} {bytes : List ℕ} → IsValid m bytes → length (contents m) ≡ m.fast_buf.cp_len
length-contents {m} {bytes} v =
    ap length (contents-IsValid v)
    ∙ omega (arith, length-take m.fast_buf.cp_len bytes, v.holds.size, v.holds.used)

pub empty-IsValid : IsValid empty (replicate 33 0)
unfolding empty FastBuf.empty
empty-IsValid = record { holds = empty-Holds cache; pos_in = omega arith; small = omega arith }

pub release-IsValid :
    {m : MemFile} {bytes : List ℕ} → IsValid m bytes → IsValid (release m) (replicate 33 0)
unfolding release FastBuf.release
release-IsValid v = record {
  holds = release-Holds cache v.holds;
  pos_in = omega arith;
  small = omega arith;
}

-- A read of what is there delivers exactly those bytes of the contents and moves on behind them.
pub read_inside :
    {m : MemFile} {bytes : List ℕ} (size : ℕ)
    → IsValid m bytes
    → m.cur_pos + size ≤ length (contents m)
    → read size m
      ≡ some
          (done (take size (drop m.cur_pos (contents m))), record m { cur_pos = m.cur_pos + size })
unfolding read
read_inside {m} {bytes} size v h = rw (
  wide,
  le→leb (m.cur_pos + size) m.fast_buf.cp_len within,
  buf-Holds cache v.holds,
  load_inside m.cur_pos size bytes (omega (arith, within)),
  ← slice-take m.cur_pos size m.fast_buf.cp_len bytes within,
  ← contents-IsValid v,
)
  where
    within : m.cur_pos + size ≤ m.fast_buf.cp_len
    within = omega (arith, length-contents v)

    wide : add_size m.cur_pos size ≡ m.cur_pos + size
    wide = omega (arith, within, v.holds.used, v.small)

-- A read beyond the contents returns -1, notes the error, and changes nothing else.
pub read_beyond :
    {m : MemFile} {bytes : List ℕ} (size : ℕ)
    → IsValid m bytes
    → length (contents m) < m.cur_pos + size
    → m.cur_pos + size < size_mod
    → read size m ≡ some (minus_one, record m { error_code = err_read })
unfolding read
read_beyond {m} size v h w =
    rw (wide, lt→leb (m.cur_pos + size) m.fast_buf.cp_len (omega (arith, length-contents v)))
  where
    wide : add_size m.cur_pos size ≡ m.cur_pos + size
    wide = omega arith

read_fits :
    {m : MemFile} {bytes : List ℕ} (size : ℕ)
    → IsValid m bytes
    → m.cur_pos + size < size_mod
    → read size m
      ≡ some (
          if leb (m.cur_pos + size) (length (contents m))
          then (
            done (take size (drop m.cur_pos (contents m))),
            record m { cur_pos = m.cur_pos + size },
          )
          else (minus_one, record m { error_code = err_read }))
read_fits {m} size v w = elim (le-cases (m.cur_pos + size) (length (contents m))) [
  | inl le ↦ rw (le→leb _ _ le) (read_inside size v le)
  | inr lt ↦ rw (lt→leb _ _ lt) (read_beyond size v lt w)
]

read_wraps :
    {m : MemFile} {bytes : List ℕ} (size : ℕ)
    → IsValid m bytes
    → size < size_mod
    → size_mod ≤ m.cur_pos + size
    → read size m ≡ none
unfolding read
read_wraps {m} {bytes} size v h w = rw (
  le→leb (add_size m.cur_pos size) m.fast_buf.cp_len (omega arith),
  buf-Holds cache v.holds,
  load_outside m.cur_pos size bytes (omega (arith, v.holds.size, v.small)),
)

-- In a well-formed file, a read of any size that a `size_t` holds delivers exactly the bytes of the
-- contents that it asks for and moves on behind them, if they are all there; if they are not, it
-- returns -1, notes the error and changes nothing else; but where the sum of position and size wraps,
-- it passes the test of the size and leaves the array.
pub read_lem :
    {m : MemFile} {bytes : List ℕ} (size : ℕ)
    → IsValid m bytes
    → size < size_mod
    → read size m ≡ (
        if leb size_mod (m.cur_pos + size)
        then none
        else some (
            if leb (m.cur_pos + size) (length (contents m))
            then (
              done (take size (drop m.cur_pos (contents m))),
              record m { cur_pos = m.cur_pos + size },
            )
            else (minus_one, record m { error_code = err_read })))
read_lem {m} size v h = elim (le-cases size_mod (m.cur_pos + size)) [
  | inl le ↦ rw (le→leb _ _ le) (read_wraps size v h le)
  | inr lt ↦ rw (lt→leb _ _ lt) (read_fits size v lt)
]
