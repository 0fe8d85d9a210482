-- ===== src/Archive/Transfer.antt =====
-- One object through the stream: what `emit` writes, `fetch` reads back from the same place.
use event_server.Base.{
  ℕ, ◌+◌, ◌≤◌, ◌≡◌, refl, sym, ap, ◌∙◌, subst, some, List, arith, length, take_all, le_bytes,
  from_le, length-le_bytes,
}
use event_server.MemFile
use event_server.MemFile.{MemFile, Reply, done, minus_one, contents}
use event_server.MemFile.Valid.{IsValid, max_file, length-contents}
use event_server.MemFile.Put.{Wrote}
use event_server.MemFile.Write.{write_lem}
use event_server.MemFile.Position.{reread, length-splice_ge}
use event_server.Archive.{Archive, sm_read, fetch, emit, set_pos, set_mode}

emit_run :
    (width v : ℕ) (a : Archive) {r : Reply ℕ} {s : MemFile}
    → MemFile.write (le_bytes width v) width a.stream ≡ some (r, s)
    → emit width v a ≡ some (record a { stream = s })
unfolding emit
emit_run width v a e = rw e

fetch_run :
    (width : ℕ) (a : Archive) {bytes : List ℕ} {s : MemFile}
    → MemFile.read width a.stream ≡ some (done bytes, s)
    → fetch width a ≡ some (some (from_le bytes), record a { stream = s })
unfolding fetch
fetch_run width a e = rw e

-- `setMode(SM_READ); setPos(pos);`
unfoldable pub rewound : ℕ → Archive → Archive
rewound pos a = set_pos pos (set_mode sm_read a)

rewound-stream :
    (a : Archive) {bytes : List ℕ} (pos : ℕ)
    → IsValid a.stream bytes
    → pos ≤ length (contents a.stream)
    → (rewound pos a).stream ≡ MemFile.set_pos pos a.stream
unfolding rewound set_pos set_mode MemFile.set_pos
rewound-stream a pos v h = ground (arith, length-contents v)

module _ (a : Archive) {bytes : List ℕ} (width v : ℕ) (valid : IsValid a.stream bytes)
    (room : a.stream.cur_pos + width ≤ max_file) where
  pub emit_lem :
      (a' : Archive) × (new : List ℕ) × (emit width v a ≡ some a')
      × Wrote a.stream (le_bytes width v) a'.stream new
      × (a' ≡ record a { stream = a'.stream })
  emit_lem =
      let (s, new, e, ok) =
        write_lem (le_bytes width v) width valid (omega (arith, length-le_bytes width v)) room in
      (
        record a { stream = s },
        new,
        emit_run width v a e,
        subst (λ l. Wrote a.stream l s new)
            (take_all width (le_bytes width v) (omega (arith, length-le_bytes width v))) ok,
        refl,
      )

  -- What was written is there to be read, from the position that the write began at.
  fetched :
      (a' : Archive) {new : List ℕ}
      → Wrote a.stream (le_bytes width v) a'.stream new
      → fetch width (rewound a.stream.cur_pos a')
        ≡ some (
          some (from_le (le_bytes width v)),
          record (rewound a.stream.cur_pos a') {
            stream = record a'.stream { cur_pos = a.stream.cur_pos + length (le_bytes width v) };
          },
        )
  fetched a' ok = fetch_run width (rewound a.stream.cur_pos a') (
      ap (MemFile.read width) rewinds
      ∙ ap (λ k. MemFile.read k (MemFile.set_pos a.stream.cur_pos a'.stream)) len
      ∙ reread (le_bytes width v) valid ok)
    where
      len : width ≡ length (le_bytes width v)
      len = sym (length-le_bytes width v)

      pos_in : a.stream.cur_pos ≤ length (contents a.stream)
      pos_in = omega (arith, length-contents valid, valid.pos_in)

      rewinds : (rewound a.stream.cur_pos a').stream ≡ MemFile.set_pos a.stream.cur_pos a'.stream
      rewinds = rewound-stream a' a.stream.cur_pos ok.valid (
          omega (
            arith,
            ap length ok.bytes,
            length-splice_ge a.stream.cur_pos (le_bytes width v) (contents a.stream) pos_in,
          ))

  pub fetch-emit :
      (a' : Archive) × (a'' : Archive) × (emit width v a ≡ some a')
      × (fetch width (rewound a.stream.cur_pos a') ≡ some (some (from_le (le_bytes width v)), a''))
      × (a'.swapped ≡ a.swapped)
  fetch-emit =
      let (a', new, e, ok, same) = emit_lem in (a', _, e, fetched a' ok, ap (λ x. x.swapped) same)
