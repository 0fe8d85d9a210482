-- ===== src/FastBuf/Append.antt =====
-- `FastBufAlloc::append`.
use event_server.Base.{
  ℕ, ◌+◌, ◌≤◌, ◌<◌, ◌≡◌, sym, ap, ◌∙◌, some, List, [], ◌∷◌, ◌++◌, arith, size_mod, add_size, length,
  length-take_of_le, take, splice, take-splice_before, take-splice_at, length-splice,
}
use event_server.Base.Memory.{load_start}
use event_server.FastBuf.{FastBuf, grow, poke, setcplen, append, contents}
use event_server.FastBuf.Holds.{Holds, contents-Holds, grow_lem, poke_lem, setcplen_lem}

module _ (cache : ℕ) where
  appended_at :
      (cp : ℕ) (src new bytes : List ℕ)
      → cp + length src + 1 ≤ length new
      → take cp new ≡ take cp bytes
      → take (cp + length src) (splice (cp + length src) (0 ∷ []) (splice cp src new))
        ≡ take cp bytes ++ src
  appended_at cp src new bytes h e =
      take-splice_before (cp + length src) (cp + length src) (0 ∷ []) (splice cp src new)
        (omega arith) (omega (arith, length-splice cp src new (omega arith)))
      ∙ take-splice_at cp src new (omega arith)
      ∙ ap (λ l. l ++ src) e

  -- The final array: the old cells, the appended ones, and a terminator.
  appended :
      (cp off size : ℕ) (src new bytes : List ℕ)
      → off ≡ cp
      → length src ≡ size
      → cp + size + 1 ≤ length new
      → take cp new ≡ take cp bytes
      → take (cp + size) (splice (cp + size) (0 ∷ []) (splice off src new)) ≡ take cp bytes ++ src
  appended cp off size src new bytes p q h e =
      rw (p, ← q) (appended_at cp src new bytes (omega arith) e)

  append_run :
      (b : FastBuf) {g p c : FastBuf} (arr : List ℕ) (size n : ℕ)
      → size ≤ length arr
      → add_size b.cp_len size ≡ n
      → grow cache n b ≡ some g
      → poke cache g.cp_len (take size arr) g ≡ some p
      → add_size p.cp_len size ≡ n
      → setcplen cache n p ≡ some c
      → append cache arr size b ≡ some c
  unfolding append
  append_run b arr size n k w eg ep w' ec = rw (w, eg, load_start size arr k, ep, w') ec

  -- Appending `size` cells to a well-formed buffer, where the argument's memory has that many and no
  -- size wraps, succeeds, and the buffer then holds its old
  -- contents followed by those cells.
  pub contents-append :
      {b : FastBuf} {bytes : List ℕ} (arr : List ℕ) (size : ℕ)
      → Holds cache b bytes
      → size ≤ length arr
      → b.cp_len + size + 1 < size_mod
      → (c : FastBuf) × (new : List ℕ) × (append cache arr size b ≡ some c)
        × Holds cache c new
        × (contents cache c ≡ contents cache b ++ take size arr)
  contents-append {b} {bytes} arr size h k w =
      let src : List ℕ = take size arr in
      let len : length src ≡ size = length-take_of_le size arr k in
      let wide : add_size b.cp_len size ≡ b.cp_len + size = omega arith in
      let (g, new, eg, G) = grow_lem cache (b.cp_len + size) h w in
      let (p, ep, hp, cp, al) =
        poke_lem cache g.cp_len src G.holds (omega (arith, G.cp, G.alloc)) in
      let (c, ec, hc, cc_, ac) = setcplen_lem cache (b.cp_len + size) hp (omega (arith, G.alloc)) in
      (
        c,
        splice (b.cp_len + size) (0 ∷ []) (splice g.cp_len src new),
        append_run b arr size (b.cp_len + size) k wide eg ep (omega (arith, cp, G.cp)) ec,
        hc,
        contents-Holds cache hc
            ∙ ap (λ n. take n (splice (b.cp_len + size) (0 ∷ []) (splice g.cp_len src new))) cc_
            ∙ appended b.cp_len g.cp_len size src new bytes G.cp len
                (omega (arith, G.alloc, G.holds.size)) G.kept
            ∙ ap (λ l. l ++ src) (sym (contents-Holds cache h)),
      )
