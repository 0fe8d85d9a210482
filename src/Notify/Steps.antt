-- ===== src/Notify/Steps.antt =====
-- What each step of the queue of messages does.
use event_server.Base.{
  ℕ, zero, suc, ◌+◌, ◌%◌, ◌^◌, ◌≤◌, ◌<◌, ◌≡◌, refl, sym, ap, ◌∙◌, le-cases, inl, inr, some, List,
  [], ◌∷◌, ◌++◌, append-nil, append_assoc, arith, lt→ltb, le→ltb, int_mod, length, take, drop,
  drop_all, get_elem?, size_mod, length-take_of_le,
}
use event_server.FastBuf
use event_server.FastBuf.{FastBuf}
use event_server.FastBuf.Copies.{copy_of_heap}
use event_server.FastBuf.Holds.{Holds}
use event_server.MemFile.{contents, cache}
use event_server.VVector
use event_server.VVector.{VVector, empty, push_back}
use event_server.VVector.Holds.{
  IsValid, IsSparse, push_back-Pushed, next_limit_sparse, empty-IsValid, empty-IsSparse,
}
use event_server.Archive.{Archive}
use event_server.Notify.{
  Notice, Notices, Event, notified, timer, next_round, copy_message, notify, notify_swap,
  notify_next,
}

-- What a receiver sees of a message: the number and the bytes.
abbrev pub seen : Notice → ℕ × List ℕ
seen n = (n.system_data, contents n.message.stream)

abbrev pub shown : List Notice → List (ℕ × List ℕ)
shown [] = []
shown (n ∷ ns) = seen n ∷ shown ns

shown-append : (ns ms : List Notice) → shown (ns ++ ms) ≡ shown ns ++ shown ms
shown-append [] ms = refl
shown-append (n ∷ ns) ms = ap (◌∷◌ (seen n)) (shown-append ns ms)

-- What the calls of `Notify` hand over.
abbrev pub sent : List Event → List (ℕ × List ℕ)
sent [] = []
sent (notified raw code msg ∷ events) = (code % int_mod, contents msg.stream) ∷ sent events
sent (timer ∷ events) = sent events
sent (next_round ∷ events) = sent events

-- A message whose buffer is well-formed and has grown to the heap.
pub record IsLarge (msg : Archive) : Type 0 where
  pub bytes : List ℕ
  pub holds : Holds cache msg.stream.fast_buf bytes
  pub heap : cache < msg.stream.fast_buf.alloc_len
  pub wide : msg.stream.fast_buf.alloc_len + 1 < size_mod

pub data Larges : List Event → Type 0 where
  no_event : Larges []
  large :
      (raw : FastBuf) (code : ℕ) (msg : Archive) (events : List Event)
      → IsLarge msg
      → Larges events
      → Larges (notified raw code msg ∷ events)
  at_timer : (events : List Event) → Larges events → Larges (timer ∷ events)
  at_round : (events : List Event) → Larges events → Larges (next_round ∷ events)

copy_run :
    (raw : FastBuf) (msg : Archive) {b : FastBuf}
    → FastBuf.copy raw msg.stream.fast_buf ≡ some b
    → copy_message raw msg ≡ some (record msg { stream = record msg.stream { fast_buf = b } })
unfolding copy_message
copy_run raw msg e = rw e refl

copy_message_lem :
    (raw : FastBuf) (msg : Archive)
    → IsLarge msg
    → (copied : Archive) × (copy_message raw msg ≡ some copied)
      × (contents copied.stream ≡ contents msg.stream)
unfolding contents
copy_message_lem raw msg l =
    let (b, bytes, e, f, h, same) = copy_of_heap cache l.holds l.heap l.wide raw in
    (record msg { stream = record msg.stream { fast_buf = b } }, copy_run raw msg e, same)

-- The messages that were handed over: told of, taken, and waiting.
abbrev pub pending : Notices → List (ℕ × List ℕ)
pending s =
    shown s.told
    ++ (shown (drop s.place (VVector.contents s.taken)) ++ shown (VVector.contents s.queue))

pub record IsFine (s : Notices) : Type 0 where
  pub queue : IsValid s.queue
  pub sparse : IsSparse s.queue
  pub taken : IsValid s.taken
  pub place : s.place ≤ s.taken.used

module _ {ℓ} {A : Type ℓ} where
  pub get_elem?-drop :
      (n k : ℕ) (xs : List A)
      → n < k
      → k ≤ length xs
      → (x : A) × (get_elem? xs n ≡ some x) × (drop n (take k xs) ≡ x ∷ drop (suc n) (take k xs))
  get_elem?-drop n zero xs h l = absurd (omega arith)
  get_elem?-drop n (suc k) [] h l = absurd (omega arith)
  get_elem?-drop zero (suc k) (x ∷ xs) h l = (x, refl, refl)
  get_elem?-drop (suc n) (suc k) (x ∷ xs) h l = get_elem?-drop n k xs (omega arith) (omega arith)

module _ (fresh : ℕ → List Notice) (sizes : (n : ℕ) → length (fresh n) ≡ n) where
  notify_run :
      (raw : FastBuf) (code : ℕ) (msg : Archive) (s : Notices) {copied : Archive}
      {q : VVector Notice}
      → copy_message raw msg ≡ some copied
      → push_back fresh (record { message = copied; system_data = code % int_mod }) s.queue ≡ some q
      → notify fresh raw code msg s ≡ some (record s { queue = q })
  unfolding notify
  notify_run raw code msg s e f = rw (e, f) refl

  pub notify_lem :
      (raw : FastBuf) (code : ℕ) (msg : Archive) (s : Notices)
      → IsLarge msg
      → IsFine s
      → s.queue.used < 2 ^ 28
      → (s1 : Notices) × (notify fresh raw code msg s ≡ some s1)
        × IsFine s1
        × (s1.queue.used ≡ s.queue.used + 1)
        × (pending s1 ≡ pending s ++ (code % int_mod, contents msg.stream) ∷ [])
  notify_lem raw code msg s l ok few =
      let (copied, e, same) = copy_message_lem raw msg l in
      let n : Notice = record { message = copied; system_data = code % int_mod } in
      let (q, f, p) =
        push_back-Pushed fresh sizes n s.queue ok.queue
          (omega (arith, few, next_limit_sparse fresh sizes s.queue ok.sparse)) in
      (
        record s { queue = q },
        notify_run raw code msg s e f,
        record { queue = p.valid; sparse = p.sparse ok.sparse; taken = ok.taken; place = ok.place },
        p.used,
        ap (λ l. shown s.told ++ (shown (drop s.place (VVector.contents s.taken)) ++ l))
              (ap shown p.same
                ∙ shown-append (VVector.contents s.queue) (n ∷ [])
                ∙ ap (λ b. shown (VVector.contents s.queue) ++ (code % int_mod, b) ∷ []) same)
            ∙ simp (append_assoc),
      )

  pub swap_lem :
      (s : Notices)
      → IsFine s
      → s.place ≡ s.taken.used
      → IsFine (notify_swap fresh s)
        × ((notify_swap fresh s).queue.used ≡ 0)
        × (pending (notify_swap fresh s) ≡ pending s)
  unfolding notify_swap VVector.swap VVector.contents empty
  swap_lem s ok e = (
    record {
      queue = empty-IsValid fresh sizes;
      sparse = empty-IsSparse fresh sizes;
      taken = ok.queue;
      place = omega arith;
    },
    refl,
    ap (λ l. shown s.told ++ l)
        (append-nil (shown (take s.queue.used s.queue.cells))
          ∙ ap (λ l. shown l ++ shown (take s.queue.used s.queue.cells))
              (sym (
                drop_all s.place (take s.taken.used s.taken.cells) (
                  omega (
                    arith,
                    e,
                    length-take_of_le s.taken.used s.taken.cells
                        (omega (arith, ok.taken.room, ok.taken.within)),
                  ))))),
  )

pub add_one : (n : ℕ) → n + 1 ≡ suc n
add_one n = omega arith

next_run :
    (s : Notices) {n : Notice}
    → s.place < s.taken.used
    → get_elem? s.taken.cells s.place ≡ some n
    → notify_next s ≡ some (record s { place = s.place + 1; told = s.told ++ n ∷ [] })
unfolding notify_next VVector.at VVector.size
next_run s h e = rw (lt→ltb s.place s.taken.used h, e) refl

next_idle : (s : Notices) → s.taken.used ≤ s.place → notify_next s ≡ some s
unfolding notify_next VVector.size
next_idle s h = rw (le→ltb s.place s.taken.used h) refl

abbrev pub told_at : ℕ → List Notice → Notices → Notices
told_at place told s = record s { place = place; told = told }

pub next_told :
    (s : Notices)
    → IsFine s
    → s.place < s.taken.used
    → (told : List Notice) × (notify_next s ≡ some (told_at (s.place + 1) told s))
      × IsFine (told_at (s.place + 1) told s)
      × (pending (told_at (s.place + 1) told s) ≡ pending s)
unfolding VVector.contents
next_told s ok more =
    let (n, e, f) =
      get_elem?-drop s.place s.taken.used s.taken.cells more
        (omega (arith, ok.taken.room, ok.taken.within)) in
    let waiting : List (ℕ × List ℕ) = shown (take s.queue.used s.queue.cells) in
    (
      s.told ++ n ∷ [],
      next_run s more e,
      record { queue = ok.queue; sparse = ok.sparse; taken = ok.taken; place = omega arith },
      ap (λ l. l ++ (shown (drop (s.place + 1) (take s.taken.used s.taken.cells)) ++ waiting))
            (shown-append s.told (n ∷ []))
          ∙ append_assoc (shown s.told) (seen n ∷ []) _
          ∙ ap (λ l. shown s.told ++ (l ++ waiting))
              (ap (λ k. seen n ∷ shown (drop k (take s.taken.used s.taken.cells))) (add_one s.place)
                ∙ sym (ap shown f)),
    )

pub next_lem :
    (s : Notices)
    → IsFine s
    → (s1 : Notices) × (notify_next s ≡ some s1)
      × IsFine s1
      × (s1.queue ≡ s.queue)
      × (pending s1 ≡ pending s)
next_lem s ok = elim (le-cases s.taken.used s.place) [
  | inl done ↦ (s, next_idle s done, ok, refl, refl)
  | inr more ↦
      let (told, e, ok1, same) = next_told s ok more in
      (told_at (s.place + 1) told s, e, ok1, refl, same)
]
