-- ===== src/Notify/Order.antt =====
-- Messages that are handed over arrive in their order.
use event_server.Base.{
  ℕ, zero, suc, ◌+◌, ◌-◌, ◌^◌, ◌≤◌, ◌≡◌, refl, sym, ap, ◌∙◌, Bool-cases, inl, inr, some, List, [],
  ◌∷◌, ◌++◌, append-nil, append_assoc, arith, ◌==◌, length, take, drop_all, length-take_of_le,
}
use event_server.FastBuf.{FastBuf}
use event_server.VVector
use event_server.VVector.{VVector, empty, push_back}
use event_server.VVector.Holds.{empty-IsValid, empty-IsSparse}
use event_server.Archive.{Archive}
use event_server.Notify.{
  Notice, Notices, Event, notified, timer, next_round, none_yet, notify, notify_swap, notify_next,
  step, run,
}
use event_server.Notify.Steps.{
  shown, sent, Larges, no_event, large, at_timer, at_round, pending, IsFine, notify_lem, swap_lem,
  told_at, next_told, next_lem,
}

-- How often `Notify` is called.
abbrev pub calls : List Event → ℕ
calls [] = 0
calls (notified raw code msg ∷ events) = suc (calls events)
calls (timer ∷ events) = calls events
calls (next_round ∷ events) = calls events

abbrev pub rounds : ℕ → List Event
rounds zero = []
rounds (suc k) = next_round ∷ rounds k

module _ (fresh : ℕ → List Notice) (sizes : (n : ℕ) → length (fresh n) ≡ n) where
  run_more :
      (e : Event) (events : List Event) (s : Notices) {s1 : Notices}
      → step fresh e s ≡ some s1
      → run fresh (e ∷ events) s ≡ run fresh events s1
  unfolding run
  run_more e events s f = rw f refl

  run_end : (s : Notices) → run fresh [] s ≡ some s
  unfolding run
  run_end s = refl

  step_notify :
      (raw : FastBuf) (code : ℕ) (msg : Archive) (s : Notices)
      → step fresh (notified raw code msg) s ≡ notify fresh raw code msg s
  unfolding step
  step_notify raw code msg s = refl

  step_next : (s : Notices) → step fresh next_round s ≡ notify_next s
  unfolding step
  step_next s = refl

  step_timer :
      (s : Notices)
      → IsFine s
      → (s1 : Notices) × (step fresh timer s ≡ some s1)
        × IsFine s1
        × (s1.queue.used ≤ s.queue.used)
        × (pending s1 ≡ pending s)
  unfolding step VVector.size
  step_timer s ok = elim (Bool-cases (s.place == s.taken.used)) [
    | inl e ↦
        let (ok1, none_left, same) = swap_lem fresh sizes s ok (ground (arith, e)) in
        (notify_swap fresh s, rw e refl, ok1, omega (arith, none_left), same)
    | inr e ↦ (s, rw e refl, ok, omega arith, refl)
  ]

  run_from :
      (events : List Event) (s : Notices)
      → Larges events
      → IsFine s
      → s.queue.used + calls events ≤ 2 ^ 28
      → (s1 : Notices) × (run fresh events s ≡ some s1)
        × IsFine s1
        × (pending s1 ≡ pending s ++ sent events)
  run_from [] s no_event ok few = (s, run_end s, ok, sym (append-nil (pending s)))
  run_from (notified raw code msg ∷ events) s (large _ _ _ _ l ls) ok few =
      let (s1, e, ok1, more, here) =
        notify_lem fresh sizes raw code msg s l ok (omega (arith, few)) in
      let (s2, f, ok2, there) = run_from events s1 ls ok1 (omega (arith, few, more)) in
      (
        s2,
        run_more (notified raw code msg) events s (step_notify raw code msg s ∙ e) ∙ f,
        ok2,
        there ∙ ap (λ l. l ++ sent events) here ∙ append_assoc (pending s) _ (sent events),
      )
  run_from (timer ∷ events) s (at_timer _ ls) ok few =
      let (s1, e, ok1, fewer, same) = step_timer s ok in
      let (s2, f, ok2, there) = run_from events s1 ls ok1 (omega (arith, few, fewer)) in
      (s2, run_more timer events s e ∙ f, ok2, there ∙ ap (λ l. l ++ sent events) same)
  run_from (next_round ∷ events) s (at_round _ ls) ok few =
      let (s1, e, ok1, kept, same) = next_lem s ok in
      let (s2, f, ok2, there) =
        run_from events s1 ls ok1 (omega (arith, few, ap (λ (q : VVector Notice). q.used) kept)) in
      (
        s2,
        run_more next_round events s (step_next s ∙ e) ∙ f,
        ok2,
        there ∙ ap (λ l. l ++ sent events) same,
      )

  none_yet-IsFine : IsFine (none_yet fresh)
  unfolding none_yet
  none_yet-IsFine = record {
    queue = empty-IsValid fresh sizes;
    sparse = empty-IsSparse fresh sizes;
    taken = empty-IsValid fresh sizes;
    place = omega arith;
  }

  none_yet-pending : (pending (none_yet fresh) ≡ []) × ((none_yet fresh).queue.used ≡ 0)
  unfolding none_yet VVector.contents empty
  none_yet-pending = (refl, refl)

  rounds_lem :
      (k : ℕ) (rest : List Event) (s : Notices)
      → IsFine s
      → s.place + k ≡ s.taken.used
      → (told : List Notice) × (run fresh (rounds k ++ rest) s
          ≡ run fresh rest (told_at s.taken.used told s))
        × IsFine (told_at s.taken.used told s)
        × (pending (told_at s.taken.used told s) ≡ pending s)
  rounds_lem zero rest s ok e =
      let at_end : s.place ≡ s.taken.used = omega arith in
      (
        s.told,
        ap (λ p. run fresh rest (record s { place = p })) at_end,
        record { queue = ok.queue; sparse = ok.sparse; taken = ok.taken; place = omega arith },
        ap (λ p. pending (record s { place = p })) (sym at_end),
      )
  rounds_lem (suc k) rest s ok e =
      let (told, f, ok1, same) = next_told s ok (omega arith) in
      let (told2, g, ok2, there) =
        rounds_lem k rest (told_at (s.place + 1) told s) ok1 (omega arith) in
      (told2, run_more next_round (rounds k ++ rest) s (step_next s ∙ f) ∙ g, ok2, there ∙ same)

  timer_swaps :
      (s : Notices) → s.place ≡ s.taken.used → step fresh timer s ≡ some (notify_swap fresh s)
  unfolding step VVector.size
  timer_swaps s e = ground (arith, e)

  all_told :
      (s : Notices)
      → s.queue.used ≡ 0
      → s.place ≡ s.taken.used
      → IsFine s
      → pending s ≡ shown s.told
  unfolding VVector.contents
  all_told s none_left e ok =
      rw
        (
          none_left,
          drop_all s.place (take s.taken.used s.taken.cells) (
              omega (
                arith,
                e,
                length-take_of_le s.taken.used s.taken.cells
                    (omega (arith, ok.taken.room, ok.taken.within)),
              )),
        )
        (append-nil (shown s.told))

  calls-rounds : (k : ℕ) (es : List Event) → calls (rounds k ++ es) ≡ calls es
  calls-rounds zero es = refl
  calls-rounds (suc k) es = calls-rounds k es

  drain_lem :
      (s : Notices)
      → IsFine s
      → (more : List Event) × (s1 : Notices) × (run fresh more s ≡ some s1)
        × (calls more ≡ 0)
        × (shown s1.told ≡ pending s)
  unfolding notify_swap VVector.swap
  drain_lem s ok =
      let left : ℕ = s.taken.used - s.place in
      let again : List Event = timer ∷ (rounds s.queue.used ++ []) in
      let (told, e, ok1, here) = rounds_lem left again s ok (omega (arith, ok.place)) in
      let s1 : Notices = told_at s.taken.used told s in
      let (ok2, none_left, same) = swap_lem fresh sizes s1 ok1 refl in
      let (told3, g, ok3, there) =
        rounds_lem s.queue.used [] (notify_swap fresh s1) ok2 (omega arith) in
      (
        rounds left ++ again,
        told_at s.queue.used told3 (notify_swap fresh s1),
        e ∙ run_more timer (rounds s.queue.used ++ []) s1 (timer_swaps s1 refl) ∙ g ∙ run_end _,
        calls-rounds left again ∙ calls-rounds s.queue.used [],
        sym (all_told _ none_left refl ok3) ∙ there ∙ same ∙ here,
      )

  -- Whatever the order in which calls of `Notify`, the timer and the rounds of its callback follow one
  -- another, every step succeeds, and what was handed over is, in its order and each once, what Lua has
  -- been told of, then what the callback has taken, then what waits in the queue; and without another
  -- call of `Notify` the timer brings all of it to Lua. What is handed over is the number and the bytes
  -- of a message; the buffers are well-formed and have grown to the heap, and there are at most 2 ^ 28
  -- calls.
  pub run_lem :
      (events : List Event)
      → Larges events
      → calls events ≤ 2 ^ 28
      → (s : Notices) × (run fresh events (none_yet fresh) ≡ some s)
        × (pending s ≡ sent events)
        × (more : List Event) × (s1 : Notices) × (run fresh more s ≡ some s1)
        × (calls more ≡ 0)
        × (shown s1.told ≡ sent events)
  run_lem events large_all few =
      let (nothing, none_waiting) = none_yet-pending in
      let (s, e, ok, same) =
        run_from events (none_yet fresh) large_all none_yet-IsFine
          (omega (arith, few, none_waiting)) in
      let whole : pending s ≡ sent events = same ∙ ap (λ l. l ++ sent events) nothing in
      let (more, s1, f, quiet, told) = drain_lem s ok in
      (s, e, whole, more, s1, f, quiet, told ∙ whole)
