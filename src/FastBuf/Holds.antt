-- ===== src/FastBuf/Holds.antt =====
-- What a well-formed `FastBufAlloc` is, and that its operations stay inside their arrays.
use event_server.Base.{
  ℕ, ◌+◌, ◌≤◌, ◌<◌, ◌≡◌, refl, ◌∙◌, ◌⊎◌, inl, inr, none, some, List, [], ◌∷◌, arith, lt→leb, le→leb,
  le-cases, size_mod, add_size, length, max, take, replicate, splice, length-splice,
  length-replicate, length-take, take-take_le, take-append_le,
}
use event_server.Base.Memory.{load_inside, store_inside}
use event_server.FastBuf.{
  FastBuf, empty, buf, set_buf, poke, setcplen, release, reallocate, grow, contents,
}

module _ (cache : ℕ) where
  -- `bytes` is the array that `buf()` points to: the inline one, or a heap array.
  abbrev pub Backed : FastBuf → List ℕ → Type 0
  Backed b bytes =
      ((b.alloc_len ≡ cache) × (b.heapbuf ≡ none) × (b.arrbuf ≡ bytes))
      ⊎ ((cache < b.alloc_len) × (b.heapbuf ≡ some bytes))

  pub record Holds (b : FastBuf) (bytes : List ℕ) : Type 0 where
    pub backed : Backed b bytes
    pub inline_size : length b.arrbuf ≡ cache + 1
    pub size : length bytes ≡ b.alloc_len + 1
    pub used : b.cp_len ≤ b.alloc_len

  pub buf-Holds : {b : FastBuf} {bytes : List ℕ} → Holds b bytes → buf cache b ≡ some bytes
  unfolding buf
  buf-Holds h = ground arith

  pub contents-Holds :
      {b : FastBuf} {bytes : List ℕ} → Holds b bytes → contents cache b ≡ take b.cp_len bytes
  unfolding contents
  contents-Holds h = rw (buf-Holds h, contents)

  pub empty-Holds : Holds (empty cache) (replicate (cache + 1) 0)
  unfolding empty
  empty-Holds = ground (arith, length-replicate {A = ℕ} (cache + 1) 0)

  pub release-Holds :
      {b : FastBuf} {bytes : List ℕ}
      → Holds b bytes
      → Holds (release cache b) (replicate (cache + 1) 0)
  unfolding release
  release-Holds {b} h = ground (arith, length-replicate {A = ℕ} (cache + 1) 0)

  -- What a write through `buf()` leaves.
  pub set_buf-Holds :
      {b : FastBuf} {old : List ℕ} (bytes : List ℕ)
      → Holds b old
      → length bytes ≡ length old
      → Holds (set_buf cache b bytes) bytes
        × ((set_buf cache b bytes).cp_len ≡ b.cp_len)
        × ((set_buf cache b bytes).alloc_len ≡ b.alloc_len)
  unfolding set_buf
  set_buf-Holds bytes h e = ground arith

  -- A write inside the array succeeds, and changes those bytes only.
  pub poke_lem :
      {b : FastBuf} {bytes : List ℕ} (off : ℕ) (src : List ℕ)
      → Holds b bytes
      → off + length src ≤ b.alloc_len + 1
      → (c : FastBuf) × (poke cache off src b ≡ some c)
        × Holds c (splice off src bytes)
        × (c.cp_len ≡ b.cp_len)
        × (c.alloc_len ≡ b.alloc_len)
  unfolding poke
  poke_lem {b} {bytes} off src h k =
      let fits : off + length src ≤ length bytes = omega arith in
      let new : List ℕ = splice off src bytes in
      let (kept, cp, alloc) = set_buf-Holds new h (length-splice off src bytes fits) in
      (set_buf cache b new, rw (buf-Holds h, store_inside off src bytes fits), kept, cp, alloc)

  -- `setcplen` puts a terminator behind the new length.
  pub setcplen_lem :
      {b : FastBuf} {bytes : List ℕ} (len : ℕ)
      → Holds b bytes
      → len ≤ b.alloc_len
      → (c : FastBuf) × (setcplen cache len b ≡ some c)
        × Holds c (splice len (0 ∷ []) bytes)
        × (c.cp_len ≡ len)
        × (c.alloc_len ≡ b.alloc_len)
  unfolding setcplen
  setcplen_lem {b} {bytes} len h k = poke_lem {b = sized} len (0 ∷ []) kept (omega arith)
    where
      sized : FastBuf
      sized = record b { cp_len = len }

      kept : Holds sized bytes
      kept = record { backed = h.backed; inline_size = h.inline_size; size = h.size; used = k }

  abbrev grown_bytes : ℕ → ℕ → List ℕ → List ℕ
  grown_bytes newsize count bytes = splice 0 (take count bytes) (replicate (newsize + 1) 0)

  reallocate_lem :
      {b : FastBuf} {bytes : List ℕ} (newsize count : ℕ)
      → Holds b bytes
      → b.alloc_len < newsize
      → newsize + 1 < size_mod
      → count ≤ b.alloc_len
      → reallocate cache newsize bytes count b
        ≡ some (record b { heapbuf = some (grown_bytes newsize count bytes); alloc_len = newsize })
  unfolding reallocate
  reallocate_lem {b} {bytes} newsize count h k w c =
      rw (load_inside 0 count bytes (omega arith), wide, store_inside 0 (take count bytes) _ fits)
    where
      wide : add_size newsize 1 ≡ newsize + 1
      wide = omega arith

      fits : 0 + length (take count bytes) ≤ length (replicate {A = ℕ} (newsize + 1) 0)
      fits = omega (arith, length-take count bytes, length-replicate {A = ℕ} (newsize + 1) 0)

  reallocate-Holds :
      {b : FastBuf} {bytes : List ℕ} (newsize count : ℕ)
      → Holds b bytes
      → b.alloc_len < newsize
      → count ≤ b.alloc_len
      → cache ≤ b.alloc_len
      → Holds
          (record b { heapbuf = some (grown_bytes newsize count bytes); alloc_len = newsize })
          (grown_bytes newsize count bytes)
  reallocate-Holds {b} {bytes} newsize count h k c l = record {
    backed = inr (omega arith, refl);
    inline_size = h.inline_size;
    size =
        length-splice 0 (take count bytes) (replicate (newsize + 1) 0) fits
        ∙ length-replicate {A = ℕ} (newsize + 1) 0;
    used = omega (arith, h.used);
  }
    where
      fits : 0 + length (take count bytes) ≤ length (replicate {A = ℕ} (newsize + 1) 0)
      fits = omega (arith, length-take count bytes, length-replicate {A = ℕ} (newsize + 1) 0)

  take-grown_bytes :
      (newsize count n : ℕ) (bytes : List ℕ)
      → n ≤ count
      → count ≤ length bytes
      → take n (grown_bytes newsize count bytes) ≡ take n bytes
  take-grown_bytes newsize count n bytes h k =
      take-append_le n (take count bytes) _ (omega (arith, length-take count bytes))
      ∙ take-take_le n count bytes h

  -- What `grow` promises of the buffer `c` and its array `new`.
  pub record Grown (newsize : ℕ) (b : FastBuf) (bytes : List ℕ) (c : FastBuf) (new : List ℕ)
      : Type 0 where
    pub holds : Holds c new
    pub cp : c.cp_len ≡ b.cp_len
    pub alloc : c.alloc_len ≡ max b.alloc_len newsize
    pub kept : take b.cp_len new ≡ take b.cp_len bytes

  reallocate-Grown :
      {b : FastBuf} {bytes : List ℕ} (newsize count : ℕ)
      → Holds b bytes
      → b.alloc_len < newsize
      → b.cp_len ≤ count
      → count ≤ b.alloc_len
      → Grown newsize b bytes
          (record b { heapbuf = some (grown_bytes newsize count bytes); alloc_len = newsize })
          (grown_bytes newsize count bytes)
  reallocate-Grown {b} {bytes} newsize count h k c d = record {
    holds = reallocate-Holds newsize count h k d (omega (arith, h.backed));
    cp = refl;
    alloc = omega arith;
    kept = take-grown_bytes newsize count b.cp_len bytes c (omega (arith, h.size));
  }

  -- Asking a well-formed buffer for up to `size_mod - 2` cells succeeds; the buffer has room for them afterwards and
  -- holds what it held.
  pub grow_lem :
      {b : FastBuf} {bytes : List ℕ} (newsize : ℕ)
      → Holds b bytes
      → newsize + 1 < size_mod
      → (c : FastBuf) × (new : List ℕ) × (grow cache newsize b ≡ some c)
        × Grown newsize b bytes c new
  unfolding grow
  grow_lem {b} {bytes} newsize h w = elim (le-cases newsize b.alloc_len) [
    | inl le ↦ (
      b,
      bytes,
      rw (le→leb _ _ le),
      record { holds = h; cp = refl; alloc = omega arith; kept = refl },
    )
    | inr lt ↦ elim h.backed [
      | inl (a, e, f) ↦ (
        record b { heapbuf = some (grown_bytes newsize b.cp_len bytes); alloc_len = newsize },
        grown_bytes newsize b.cp_len bytes,
        rw (lt→leb _ _ lt, e, buf-Holds h) (reallocate_lem newsize b.cp_len h lt w h.used),
        reallocate-Grown newsize b.cp_len h lt (omega arith) h.used,
      )
      | inr (a, e) ↦ (
        record b { heapbuf = some (grown_bytes newsize b.alloc_len bytes); alloc_len = newsize },
        grown_bytes newsize b.alloc_len bytes,
        rw (lt→leb _ _ lt, e) (reallocate_lem newsize b.alloc_len h lt w (omega arith)),
        reallocate-Grown newsize b.alloc_len h lt h.used (omega arith),
      )
    ]
  ]
