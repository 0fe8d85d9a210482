-- ===== src/FastBuf/Copies.antt =====
-- The copy constructor and `operator =` of `FastBufAlloc`.
use event_server.Base.{
  ℕ, ◌+◌, ◌≤◌, ◌<◌, ◌≡◌, refl, sym, ◌∙◌, inr, none, some, List, arith, size_mod, add_size, length,
  length-take, length-replicate, length-splice, take, take-take_le, take-append_le, replicate,
  splice,
}
use event_server.Base.Memory.{load_start, store_inside}
use event_server.FastBuf.{FastBuf, buf, contents, assign, copy}
use event_server.FastBuf.Holds.{Holds, contents-Holds}

module _ (cache : ℕ) where
  -- The array that a copy of a heap buffer gets.
  abbrev copied_bytes : FastBuf → List ℕ → List ℕ
  copied_bytes source bytes =
      splice 0 (take source.alloc_len bytes) (replicate (source.alloc_len + 1) 0)

  abbrev copied : FastBuf → List ℕ → FastBuf
  copied source bytes = record source { heapbuf = some (copied_bytes source bytes) }

  module _ {source : FastBuf} {bytes : List ℕ} (h : Holds cache source bytes)
      (heap : cache < source.alloc_len) (wide : source.alloc_len + 1 < size_mod) where
    fits :
        0 + length (take source.alloc_len bytes)
        ≤ length (replicate {A = ℕ} (source.alloc_len + 1) 0)
    fits = omega (
      arith,
      length-take source.alloc_len bytes,
      length-replicate {A = ℕ} (source.alloc_len + 1) 0,
      h.size,
    )

    backing : source.heapbuf ≡ some bytes
    backing = ground (arith, h.backed)

    no_wrap : add_size source.alloc_len 1 ≡ source.alloc_len + 1
    no_wrap = omega (arith, wide)

    kept : source.alloc_len ≤ length bytes
    kept = omega (arith, h.size)

    copied-Holds : Holds cache (copied source bytes) (copied_bytes source bytes)
    copied-Holds = record {
      backed = inr (heap, refl);
      inline_size = h.inline_size;
      size =
          length-splice 0 (take source.alloc_len bytes) (replicate (source.alloc_len + 1) 0) fits
          ∙ length-replicate {A = ℕ} (source.alloc_len + 1) 0;
      used = h.used;
    }

    contents-copied : contents cache (copied source bytes) ≡ contents cache source
    contents-copied =
        contents-Holds cache copied-Holds
        ∙ take-append_le source.cp_len (take source.alloc_len bytes) _
            (omega (arith, h.used, length-take source.alloc_len bytes, kept))
        ∙ take-take_le source.cp_len source.alloc_len bytes h.used
        ∙ sym (contents-Holds cache h)

    -- Whatever the target held, copying or assigning a well-formed buffer that has grown to the heap,
    -- up to `size_mod - 2` cells, succeeds,
    -- and gives a well-formed buffer with the same contents.
    pub copy_of_heap :
        (target : FastBuf)
        → (c : FastBuf) × (new : List ℕ) × (copy target source ≡ some c)
          × (assign target source ≡ some c)
          × Holds cache c new
          × (contents cache c ≡ contents cache source)
    unfolding copy assign
    copy_of_heap target = (
      copied source bytes,
      copied_bytes source bytes,
      rw (backing, load_start source.alloc_len bytes kept, no_wrap, store_inside 0 _ _ fits),
      rw (backing, load_start source.alloc_len bytes kept, no_wrap, store_inside 0 _ _ fits),
      copied-Holds,
      contents-copied,
    )

  -- The copy constructor leaves two fields unset when the source is inline: as soon as the memory
  -- of the new object holds a large `alloc_len`, `buf()` is the stray pointer found there.
  pub copy_of_inline :
      (raw source : FastBuf)
      → source.heapbuf ≡ none
      → cache < raw.alloc_len
      → (c : FastBuf) × (copy raw source ≡ some c)
        × (buf cache c ≡ raw.heapbuf)
        × (c.alloc_len ≡ raw.alloc_len)
        × (c.cp_len ≡ source.cp_len)
  unfolding copy buf
  copy_of_inline raw source e h = (
    record raw { arrbuf = source.arrbuf; cp_len = source.cp_len },
    rw e,
    ground arith,
    refl,
    refl,
  )

  -- Assigning an inline buffer to a well-formed one that has grown to the heap takes over the length and not the
  -- bytes: the target then holds that many of its own old bytes.
  pub assign_of_inline :
      {target : FastBuf} {bytes : List ℕ} (source : FastBuf)
      → Holds cache target bytes
      → cache < target.alloc_len
      → source.heapbuf ≡ none
      → (c : FastBuf) × (assign target source ≡ some c)
        × (contents cache c ≡ take source.cp_len bytes)
  unfolding assign contents buf
  assign_of_inline {target} source h k e =
      (record target { arrbuf = source.arrbuf; cp_len = source.cp_len }, rw e, ground arith)
