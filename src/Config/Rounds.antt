-- ===== src/Config/Rounds.antt =====
-- One round of the outer loop of `load`.
use event_server.Base.{
  ℕ, suc, ◌+◌, ◌-◌, ◌≤◌, ◌<◌, ◌≡◌, refl, sym, ap, ap₂, ◌∙◌, subst, min, le-cases, inl, inr, some,
  List, ◌∷◌, ◌++◌, arith, length, length-append, length-take, ◌⊎◌, take, drop, take-append_add,
  drop-append_add, take_all, get_elem?,
}
use event_server.Base.Memory.{◌>>=◌}
use event_server.Config.Lines.{State, line_end}
use event_server.Config.Parsing.{
  find, take_lines, until_zero, Reading, fill, separator, load_lines, keep_left, load_round,
}
use event_server.Config.Filled.{fill_lem, keep_left_lem}
use event_server.Config.Pieces.{Lines, joined, joined-NoZero, NoZero-take, until_zero_lem, cut_lem}
use event_server.Config.Lined.{load_all, load_lines_lem}
use event_server.Config.Places.{
  separator_lem, IsAt, cut_small, cut_find, find-joined, Lines-append, take-length-take, ends_ten,
  joined_long, some_whole, bind_some, after_round,
}

module _ (raw : ℕ) (atof atoi atol : List ℕ → ℕ) where
  take_run :
      (text : List ℕ) (r : Reading) {k : ℕ}
      → separator text ≡ line_end
      → find line_end text ≡ some k
      → take_lines raw atof atoi atol text r ≡ (
          load_lines raw atof atoi atol line_end (suc (length text)) text r.state
          >>= λ (p : List ℕ × State).
              (keep_left p.0 r.buf >>= λ kept.
              some (record r { buf = kept; offset = length p.0; state = p.1 })))
  unfolding take_lines
  take_run text r e f = rw (e, f, e, take_lines) refl

  round_run :
      (got : List ℕ) (r : Reading) {buf text : List ℕ}
      → fill got r.offset r.buf ≡ some buf
      → until_zero buf ≡ text
      → load_round raw atof atoi atol got r
        ≡ take_lines raw atof atoi atol text
            (record r { buf = buf; rest = drop (length got) r.rest })
  unfolding load_round
  round_run got r {buf} e f =
      rw (e, load_round)
        (ap
          (λ t.
            take_lines raw atof atoi atol t
              (record r { buf = buf; rest = drop (length got) r.rest }))
          f)

  pub record Round (got : List ℕ) (r : Reading) (todo : List (List ℕ)) : Type 0 where
    pub first : List (List ℕ)
    pub later : List (List ℕ)
    pub left : List ℕ
    pub kept : List ℕ
    pub parts : todo ≡ first ++ later
    pub run : load_round raw atof atoi atol got r ≡ (
        load_all raw atof atoi atol first r.state >>= λ st. some (after_round left kept got r st))
    pub next : (st : State) → IsAt (after_round left kept got r st) later

  pub round_lem :
      (got : List ℕ) (r : Reading) (todo : List (List ℕ))
      → IsAt r todo
      → 0 < length got
      → got ≡ take (1024 - r.offset) r.rest
      → Round got r todo
  round_lem got r todo at some_got same =
      let small : length at.left ≤ 1022 = cut_small at.left todo at.lines at.cut in
      let got_size : length got ≡ min (1024 - r.offset) (length r.rest) =
        ap length same ∙ length-take (1024 - r.offset) r.rest in
      let total : length at.left + length r.rest ≡ length (joined todo) =
        sym (length-append at.left r.rest) ∙ ap length at.whole in
      let n : ℕ = length at.left + length got in
      let within : n ≤ length (joined todo) = omega (arith, total, got_size) in
      let data_in : List ℕ = take n (joined todo) in
      let size : length data_in ≡ n = length-take n (joined todo) ∙ omega (arith, within) in
      let parts : take r.offset r.buf ++ got ≡ data_in =
        ap₂ ◌++◌ at.kept (
          same
          ∙ sym (take-length-take (1024 - r.offset) r.rest)
          ∙ ap (λ l. take (length l) r.rest) (sym same))
        ∙ sym (take-append_add (length got) at.left r.rest)
        ∙ ap (take n) at.whole in
      let c = cut_lem todo n within in
      let (ls1, ls2) = Lines-append c.whole c.later (subst Lines c.all at.lines) in
      let full_or_all : (n ≡ 1024) ⊎ (n ≡ length (joined todo)) =
        elim (le-cases (1024 - r.offset) (length r.rest)) [
          | inl full ↦ inl (omega (arith, full, got_size, at.offset, small))
          | inr all ↦ inr (omega (arith, all, got_size, total))
        ] in
      let (more, filled, size1) =
        fill_lem got r.offset r.buf data_in at.size parts
          (omega (arith, got_size, at.offset, small)) some_got
          (size ∙ ap (λ k. k + length got) (sym at.offset))
          (elim full_or_all [
            | inl full ↦ inl (omega (arith, full, at.offset))
            | inr all ↦ inr (λ ys.
                subst (λ l. get_elem? (l ++ ys) (length l - 1) ≡ some 10)
                  (sym (take_all n (joined todo) (omega (arith, all))))
                  (ends_ten todo ys (omega (arith, within, some_got))))
          ]) in
      let buf : List ℕ = data_in ++ 0 ∷ more in
      let text : List ℕ = joined c.whole ++ c.left in
      let text_eq : until_zero buf ≡ text =
        until_zero_lem data_in more (NoZero-take n (joined todo) (joined-NoZero todo at.lines))
        ∙ c.first in
      let (k, found) =
        find-joined c.whole c.left ls1
          (some_whole todo n c ls2 (omega (arith, some_got)) within full_or_all) in
      let (kept, e_kept, kept_size, kept_left) =
        keep_left_lem c.left buf size1 (cut_small c.left c.later ls2 c.cut) in
      let r1 : Reading = record r { buf = buf; rest = drop (length got) r.rest } in
      record {
        first = c.whole;
        later = c.later;
        left = c.left;
        kept = kept;
        parts = c.all;
        run =
            round_run got r filled text_eq
            ∙ take_run text r1 (separator_lem text found) found
            ∙ ap
                (λ o. o >>= λ (p : List ℕ × State).
                  (keep_left p.0 buf >>= λ b.
                  some (record r1 { buf = b; offset = length p.0; state = p.1 })))
                (load_lines_lem raw atof atoi atol c.whole c.left (suc (length text)) r.state ls1
                  (cut_find c.left c.later ls2 c.cut)
                  (omega (arith, joined_long c.whole, length-append (joined c.whole) c.left)))
            ∙ bind_some (load_all raw atof atoi atol c.whole r.state) (λ st. (c.left, st)) _ _
                (λ st.
                  ap
                    (λ o.
                      o >>= λ b. some (record r1 { buf = b; offset = length c.left; state = st }))
                    e_kept);
        next = λ st. record {
          left = c.left;
          offset = refl;
          kept = kept_left;
          size = kept_size;
          whole =
              ap (λ l. c.left ++ l)
                (sym (drop-append_add (length got) at.left r.rest) ∙ ap (drop n) at.whole)
              ∙ c.second;
          cut = c.cut;
          lines = ls2;
        };
      }
