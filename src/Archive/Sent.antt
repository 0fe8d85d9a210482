-- ===== src/Archive/Sent.antt =====
-- Runs of writes: what one write after another leaves is what one write of all the bytes leaves.
use event_server.Base.{
  ℕ, ◌+◌, ◌≤◌, ◌<◌, ◌≡◌, refl, sym, ap, ap₂, ◌∙◌, subst, some, List, [], ◌∷◌, ◌++◌, arith, length,
  take, splice, splice-splice, splice-nil, length-append, int_half, le_bytes_one,
}
use event_server.MemFile
use event_server.MemFile.{MemFile, Reply, contents}
use event_server.MemFile.Valid.{IsValid, max_file, length-contents}
use event_server.MemFile.Put.{Wrote}
use event_server.MemFile.Write.{write_lem}
use event_server.Archive.{Archive, sm_write, emit}
use event_server.Archive.Transfer.{emit_lem}
use event_server.Archive.Serial.{serial_uint8, write_from, write}

-- The archive `a'` is `a` after the bytes `bs` have gone out.
pub record Sent (a : Archive) (bs : List ℕ) (a' : Archive) (new : List ℕ) : Type 0 where
  pub wrote : Wrote a.stream bs a'.stream new
  pub mode : a'.mode ≡ a.mode
  pub swapped : a'.swapped ≡ a.swapped

pub Sent-nil : (a : Archive) {bytes : List ℕ} → IsValid a.stream bytes → Sent a [] a bytes
Sent-nil a v = record {
  wrote = record {
    valid = v;
    bytes = sym (splice-nil a.stream.cur_pos (contents a.stream));
    pos = omega arith;
    error = refl;
  };
  mode = refl;
  swapped = refl;
}

pub Sent-trans :
    {a b c : Archive} {bytes new newer : List ℕ} (s t : List ℕ)
    → IsValid a.stream bytes
    → Sent a s b new
    → Sent b t c newer
    → Sent a (s ++ t) c newer
Sent-trans {a} {b} {c} s t v p q = record {
  wrote = record {
    valid = q.wrote.valid;
    bytes =
        q.wrote.bytes
        ∙ ap₂ (λ k l. splice k t l) p.wrote.pos p.wrote.bytes
        ∙ splice-splice a.stream.cur_pos s t (contents a.stream)
            (omega (arith, length-contents v, v.pos_in));
    pos = omega (arith, q.wrote.pos, p.wrote.pos, length-append s t);
    error = q.wrote.error ∙ p.wrote.error;
  };
  mode = q.mode ∙ p.mode;
  swapped = q.swapped ∙ p.swapped;
}

module _ (a : Archive) {bytes : List ℕ} (valid : IsValid a.stream bytes)
    (m : a.mode ≡ sm_write) where
  uint8_run : (v : ℕ) {a' : Archive} → emit 1 v a ≡ some a' → serial_uint8 v a ≡ some (v, a')
  unfolding serial_uint8
  uint8_run v e = ground arith

  pub uint8_Sent :
      (v : ℕ)
      → v < 256
      → a.stream.cur_pos + 1 ≤ max_file
      → (a' : Archive) × (new : List ℕ) × (serial_uint8 v a ≡ some (v, a')) × Sent a (v ∷ []) a' new
  uint8_Sent v h room =
      let (a', new, e, ok, same) = emit_lem a 1 v valid room in
      (
        a',
        new,
        uint8_run v e,
        record {
          wrote = subst (λ l. Wrote a.stream l a'.stream new) (le_bytes_one v h) ok;
          mode = ap (λ x. x.mode) same;
          swapped = ap (λ x. x.swapped) same;
        },
      )

  write_run :
      (buf : List ℕ) (len : ℕ) {r : Reply ℕ} {s : MemFile}
      → len < int_half
      → MemFile.write buf len a.stream ≡ some (r, s)
      → write buf len a ≡ some (record a { stream = s })
  unfolding write write_from
  write_run buf len h e = ground arith

  pub write-Sent :
      (buf : List ℕ) (len : ℕ)
      → len ≤ length buf
      → len < int_half
      → a.stream.cur_pos + len ≤ max_file
      → (a' : Archive) × (new : List ℕ) × (write buf len a ≡ some a') × Sent a (take len buf) a' new
  write-Sent buf len h k room =
      let (s, new, e, ok) = write_lem buf len valid h room in
      (
        record a { stream = s },
        new,
        write_run buf len k e,
        record { wrote = ok; mode = refl; swapped = refl },
      )
