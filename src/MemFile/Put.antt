-- ===== src/MemFile/Put.antt =====
-- The copying part of `CIMemFile::Write`, once there is room.
use event_server.Base.{
  ℕ, ◌+◌, ◌≤◌, ◌<◌, ◌≡◌, refl, sym, ap, ◌∙◌, inl, inr, some, List, [], ◌∷◌, ◌++◌, arith, ltb,
  le-cases, if◌then◌else◌, le→ltb, lt→ltb, add_size, length, length-take_of_le, length-splice, take,
  splice, splice_end, take-splice_before, take-splice_at, take-splice_after, take-take_le,
}
use event_server.Base.Memory.{load_start}
use event_server.FastBuf
use event_server.FastBuf.{FastBuf}
use event_server.FastBuf.Holds.{Holds, poke_lem, setcplen_lem}
use event_server.MemFile.{MemFile, cache, put, contents}
use event_server.MemFile.Valid.{IsValid, contents-IsValid}

-- What a write of `src` at the position of `m` leaves.
pub record Wrote (m : MemFile) (src : List ℕ) (m' : MemFile) (new : List ℕ) : Type 0 where
  pub valid : IsValid m' new
  pub bytes : contents m' ≡ splice m.cur_pos src (contents m)
  pub pos : m'.cur_pos ≡ m.cur_pos + length src
  pub error : m'.error_code ≡ m.error_code

pub put_run :
    (m : MemFile) {w s : FastBuf} (src : List ℕ) (size pos : ℕ)
    → size ≤ length src
    → add_size m.cur_pos size ≡ pos
    → FastBuf.poke cache m.cur_pos (take size src) m.fast_buf ≡ some w
    → (if ltb w.cp_len pos then FastBuf.setcplen cache pos w else some w) ≡ some s
    → put src size m ≡ some (record m { fast_buf = s; cur_pos = pos })
unfolding put
put_run m src size pos h e ep es = rw (load_start size src h, e, ep, es)

-- The bytes beyond the old end: the terminator stands behind them.
put_extends :
    (pos cp : ℕ) (src bytes : List ℕ)
    → pos ≤ cp
    → cp < pos + length src
    → pos + length src < length bytes
    → take (pos + length src) (splice (pos + length src) (0 ∷ []) (splice pos src bytes))
      ≡ splice pos src (take cp bytes)
put_extends pos cp src bytes h k l =
    take-splice_before (pos + length src) (pos + length src) (0 ∷ []) (splice pos src bytes)
      (omega arith) (omega (arith, length-splice pos src bytes (omega arith)))
    ∙ take-splice_at pos src bytes (omega arith)
    ∙ ap (λ l. l ++ src) (sym (take-take_le pos cp bytes h))
    ∙ sym (
        splice_end pos src (take cp bytes)
          (omega (arith, length-take_of_le cp bytes (omega arith))))

module _ {m : MemFile} {bytes : List ℕ} (src : List ℕ) (v : IsValid m bytes)
    (room : m.cur_pos + length src ≤ m.fast_buf.alloc_len) where
  wide : add_size m.cur_pos (length src) ≡ m.cur_pos + length src
  wide = omega (arith, room, v.small)

  -- The final buffer's array, by whether the write ends inside the old contents.
  module _ {w : FastBuf} (hw : Holds cache w (splice m.cur_pos src bytes))
      (cw : w.cp_len ≡ m.fast_buf.cp_len) (aw : w.alloc_len ≡ m.fast_buf.alloc_len) where
    inside_IsValid :
        m.cur_pos + length src ≤ m.fast_buf.cp_len
        → IsValid
            (record m { fast_buf = w; cur_pos = m.cur_pos + length src })
            (splice m.cur_pos src bytes)
    inside_IsValid le = record { holds = hw; pos_in = omega arith; small = omega (arith, v.small) }

    put_inside :
        m.cur_pos + length src ≤ m.fast_buf.cp_len
        → (m' : MemFile) × (new : List ℕ) × ((if ltb w.cp_len (m.cur_pos + length src)
              then FastBuf.setcplen cache (m.cur_pos + length src) w
              else some w)
            ≡ some m'.fast_buf)
          × (m' ≡ record m { fast_buf = m'.fast_buf; cur_pos = m.cur_pos + length src })
          × Wrote m src m' new
    put_inside le = (
      record m { fast_buf = w; cur_pos = m.cur_pos + length src },
      splice m.cur_pos src bytes,
      rw (le→ltb w.cp_len (m.cur_pos + length src) (omega arith)),
      refl,
      record {
        valid = inside_IsValid le;
        bytes =
            contents-IsValid (inside_IsValid le)
            ∙ ap (λ n. take n (splice m.cur_pos src bytes)) cw
            ∙ take-splice_after m.fast_buf.cp_len m.cur_pos src bytes le
                (omega (arith, v.holds.size, v.holds.used))
            ∙ ap (splice m.cur_pos src) (sym (contents-IsValid v));
        pos = refl;
        error = refl;
      },
    )

    put_beyond :
        m.fast_buf.cp_len < m.cur_pos + length src
        → (m' : MemFile) × (new : List ℕ) × ((if ltb w.cp_len (m.cur_pos + length src)
              then FastBuf.setcplen cache (m.cur_pos + length src) w
              else some w)
            ≡ some m'.fast_buf)
          × (m' ≡ record m { fast_buf = m'.fast_buf; cur_pos = m.cur_pos + length src })
          × Wrote m src m' new
    put_beyond lt =
        let (c, ec, hc, cc_, ac) = setcplen_lem cache (m.cur_pos + length src) hw (omega arith) in
        let w' : MemFile = record m { fast_buf = c; cur_pos = m.cur_pos + length src } in
        let ok : IsValid w'
            (splice (m.cur_pos + length src) (0 ∷ []) (splice m.cur_pos src bytes)) =
          record { holds = hc; pos_in = omega arith; small = omega (arith, v.small) } in
        (
          w',
          splice (m.cur_pos + length src) (0 ∷ []) (splice m.cur_pos src bytes),
          rw (lt→ltb w.cp_len (m.cur_pos + length src) (omega arith)) ec,
          refl,
          record {
            valid = ok;
            bytes =
                contents-IsValid ok
                ∙ ap
                    (λ n.
                      take n
                        (splice (m.cur_pos + length src) (0 ∷ []) (splice m.cur_pos src bytes)))
                    cc_
                ∙ put_extends m.cur_pos m.fast_buf.cp_len src bytes v.pos_in lt
                    (omega (arith, v.holds.size))
                ∙ ap (splice m.cur_pos src) (sym (contents-IsValid v));
            pos = refl;
            error = refl;
          },
        )

    put_sized :
        (m' : MemFile) × (new : List ℕ) × ((if ltb w.cp_len (m.cur_pos + length src)
            then FastBuf.setcplen cache (m.cur_pos + length src) w
            else some w)
          ≡ some m'.fast_buf)
        × (m' ≡ record m { fast_buf = m'.fast_buf; cur_pos = m.cur_pos + length src })
        × Wrote m src m' new
    put_sized = elim (le-cases (m.cur_pos + length src) m.fast_buf.cp_len) [
      | inl le ↦ put_inside le
      | inr lt ↦ put_beyond lt
    ]

  pub put_exact :
      (mem : List ℕ)
      → length src ≤ length mem
      → take (length src) mem ≡ src
      → (m' : MemFile) × (new : List ℕ) × (put mem (length src) m ≡ some m') × Wrote m src m' new
  put_exact mem h e =
      let (w, ew, hw, cw, aw) = poke_lem cache m.cur_pos src v.holds (omega (arith, room)) in
      let (m', new, es, em, done_) = put_sized hw cw aw in
      (
        m',
        new,
        put_run m mem (length src) (m.cur_pos + length src) h wide
              (ap (λ l. FastBuf.poke cache m.cur_pos l m.fast_buf) e ∙ ew) es
            ∙ ap some (sym em),
        done_,
      )
