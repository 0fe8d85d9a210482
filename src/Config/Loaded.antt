-- ===== src/Config/Loaded.antt =====
-- `load` on a file of lines, and on what `save` has written.
use event_server.Base.{
  ℕ, zero, suc, ◌+◌, ◌-◌, ◌≤◌, ◌<◌, ◌≡◌, refl, sym, ap, ◌∙◌, false, inl, inr, Option, none, some,
  List, [], ◌∷◌, ◌++◌, arith, ltb, length, length-append, length-take, length-drop, ◌⊎◌, take,
  replicate, length-replicate, le→ltb,
}
use event_server.Base.Memory.{◌>>=◌}
use event_server.Config.Lines.{State, line_end, load_line}
use event_server.Config.Parsing.{Reading, load_round, load_from, load_file}
use event_server.Config.Pieces.{Lines, joined, IsCut, cut_end, cut_in}
use event_server.Config.Lined.{load_all}
use event_server.Config.Places.{IsAt, cut_small, after_round}
use event_server.Config.Rounds.{round_lem}

list_cases : (xs : List ℕ) → (xs ≡ []) ⊎ ((c : ℕ) × (more : List ℕ) × (xs ≡ c ∷ more))
list_cases [] = inl refl
list_cases (c ∷ more) = inr (c, more, refl)

module _ (raw : ℕ) (atof atoi atol : List ℕ → ℕ) where
  from_end :
      (n : ℕ) (r : Reading)
      → ltb 1024 r.offset ≡ false
      → take (1024 - r.offset) r.rest ≡ []
      → load_from raw atof atoi atol (suc n) r ≡ some r.state
  unfolding load_from
  from_end n r e f = rw (e, f, load_from) refl

  from_step :
      (n : ℕ) (r : Reading) {c : ℕ} {more : List ℕ} {o : Option Reading}
      → ltb 1024 r.offset ≡ false
      → take (1024 - r.offset) r.rest ≡ c ∷ more
      → load_round raw atof atoi atol (c ∷ more) r ≡ o
      → load_from raw atof atoi atol (suc n) r ≡ (o >>= load_from raw atof atoi atol n)
  unfolding load_from
  from_step n r e f g = rw (e, f, g, load_from) refl

  all_append :
      (first later : List (List ℕ)) (state : State)
      → (load_all raw atof atoi atol first state >>= load_all raw atof atoi atol later)
        ≡ load_all raw atof atoi atol (first ++ later) state
  unfolding load_all
  all_append [] later state = refl
  all_append (line ∷ first) later state =
      bind_all (load_line raw atof atoi atol line state) (λ st. all_append first later st)
    where
      bind_all :
          (o : Option State)
          → ((st : State)
              → (load_all raw atof atoi atol first st >>= load_all raw atof atoi atol later)
                ≡ load_all raw atof atoi atol (first ++ later) st)
          → ((o >>= load_all raw atof atoi atol first) >>= load_all raw atof atoi atol later)
            ≡ (o >>= load_all raw atof atoi atol (first ++ later))
      bind_all none e = refl
      bind_all (some st) e = e st

  bind_next :
      (o : Option State) (next : State → Reading) (f : Reading → Option State)
      (g : State → Option State)
      → ((st : State) → f (next st) ≡ g st)
      → ((o >>= λ st. some (next st)) >>= f) ≡ (o >>= g)
  bind_next none next f g e = refl
  bind_next (some st) next f g e = e st

  none_left :
      (r : Reading) (todo : List (List ℕ))
      → IsAt r todo
      → length r.rest ≡ 0
      → load_all raw atof atoi atol todo r.state ≡ some r.state
  unfolding load_all
  none_left r [] at h = refl
  none_left r (line ∷ more) at h = absurd (
      omega (
        arith,
        h,
        ap length at.whole,
        length-append at.left r.rest,
        length-append (line ++ line_end) (joined more),
        length-append line line_end,
        cut_shorter at.left line more at.cut,
      ))
    where
      cut_shorter :
          (left line : List ℕ) (more : List (List ℕ))
          → IsCut left (line ∷ more)
          → length left ≤ length line + 1
      cut_shorter _ line more (cut_in n _ _ h) = omega (arith, h, length-take n (line ++ line_end))

  load_from_lem :
      (n : ℕ) (r : Reading) (todo : List (List ℕ))
      → IsAt r todo
      → length r.rest < n
      → load_from raw atof atoi atol n r ≡ load_all raw atof atoi atol todo r.state
  load_from_lem zero r todo at h = absurd (omega arith)
  load_from_lem (suc n) r todo at h =
      let small : length at.left ≤ 1022 = cut_small at.left todo at.lines at.cut in
      let inside : ltb 1024 r.offset ≡ false =
        le→ltb 1024 r.offset (omega (arith, small, at.offset)) in
      elim (list_cases (take (1024 - r.offset) r.rest)) [
        | inl e ↦
            from_end n r inside e
            ∙ sym (
                none_left r todo at (
                  omega
                    (arith, ap length e, length-take (1024 - r.offset) r.rest, at.offset, small)))
        | inr (c, more, e) ↦
            let round = round_lem raw atof atoi atol (c ∷ more) r todo at (omega arith) (sym e) in
            from_step n r inside e round.run
            ∙ bind_next (load_all raw atof atoi atol round.first r.state) _ _ _ (λ st.
              load_from_lem n (after_round round.left round.kept (c ∷ more) r st) round.later
                (round.next st)
                (omega (
                  arith,
                  h,
                  ap length e,
                  length-take (1024 - r.offset) r.rest,
                  length-drop (length (c ∷ more)) r.rest,
                )))
            ∙ all_append round.first round.later r.state
            ∙ ap (λ ls. load_all raw atof atoi atol ls r.state) (sym round.parts)
      ]

  start-IsCut : (lines : List (List ℕ)) → IsCut [] lines
  start-IsCut [] = cut_end
  start-IsCut (line ∷ more) = cut_in 0 line more (omega arith)

  -- `load` on a file of lines with their ends, however long the file is, comes to its end and does what
  -- the lines say, one after the other, as long as every line can be stored. No line has a zero or a
  -- carriage return in it, nor more than 1021 bytes without its end.
  pub load_file_lem :
      (lines : List (List ℕ)) (state : State)
      → Lines lines
      → load_file raw atof atoi atol (joined lines) state ≡ load_all raw atof atoi atol lines state
  unfolding load_file
  load_file_lem lines state ls =
      load_from_lem (suc (length (joined lines)))
        (record { buf = replicate 2048 0; offset = 0; rest = joined lines; state = state }) lines
        (record {
          left = [];
          offset = refl;
          kept = refl;
          size = length-replicate {A = ℕ} 2048 0;
          whole = refl;
          cut = start-IsCut lines;
          lines = ls;
        })
        (omega arith)
