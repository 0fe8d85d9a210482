-- ===== src/Http/Answered.antt =====
-- The answer to a GET request, and its whole life.
use event_server.Base.{
  ℕ, ◌<◌, ◌≡◌, refl, sym, ap, ◌∙◌, subst, true, false, ◌||◌, Bool-cases, inl, inr, Option, none,
  some, List, [], ◌∷◌, arith, ◌==◌, if◌then◌else◌, length, int_half, take, take_self, splice,
  splice_end, replicate,
}
use event_server.Base.Ledger.{Ledger, Balance}
use event_server.FastBuf
use event_server.MemFile
use event_server.MemFile.{contents}
use event_server.MemFile.Valid.{IsValid, empty-IsValid}
use event_server.Archive.{Archive, sm_write, fresh}
use event_server.Archive.Serial.{write}
use event_server.Archive.Sent.{write-Sent}
use event_server.Server.{set_message_mode}
use event_server.Server.Received.{moved_to, set_mode_lem, moved_to-IsValid, contents-moved_to}
use event_server.Http.{
  get_method, Response, HttpRequest, Started, Reply, get_final, get_cb, message_of, send_http,
}
use event_server.Http.Frees.{IsPending}
use event_server.Http.Steps.{Answerable, answer, get_final_lem, IsStarted}
use event_server.Http.Life.{
  blank_message, with_caller, new_ref, new_request, send_lem, ref-Answerable, Waits, follow,
  Redirects, follow_lem,
}

fresh-IsValid : IsValid (fresh MemFile.empty).stream (replicate 33 0)
unfolding fresh
fresh-IsValid = empty-IsValid

fresh-contents : contents (fresh MemFile.empty).stream ≡ []
unfolding fresh contents MemFile.empty FastBuf.contents FastBuf.empty FastBuf.buf
fresh-contents = refl

-- The message goes back to its start before the body is written.
ready : Archive
ready = moved_to sm_write 0 blank_message

blank_lem : blank_message ≡ moved_to sm_write 0 (fresh MemFile.empty)
blank_lem = set_mode_lem sm_write (fresh MemFile.empty)

blank-IsValid : IsValid blank_message.stream (replicate 33 0)
blank-IsValid =
    subst (λ a. IsValid a.stream (replicate 33 0)) (sym blank_lem)
      (moved_to-IsValid sm_write 0 (fresh MemFile.empty) fresh-IsValid (omega arith))

blank-contents : contents blank_message.stream ≡ []
blank-contents =
    ap (λ a. contents a.stream) blank_lem
    ∙ contents-moved_to sm_write 0 (fresh MemFile.empty)
    ∙ fresh-contents

body_lem :
    (body : List ℕ)
    → length body < int_half
    → (msg : Archive) × (write body (length body) (set_message_mode sm_write blank_message)
        ≡ some msg)
      × (contents msg.stream ≡ body)
unfolding ready moved_to
body_lem body small =
    let valid : IsValid ready.stream (replicate 33 0) =
      moved_to-IsValid sm_write 0 blank_message blank-IsValid (omega arith) in
    let (msg, new, e, sent) =
      write-Sent ready valid refl body (length body) (omega arith) small (omega arith) in
    (
      msg,
      ap (write body (length body)) (set_mode_lem sm_write blank_message) ∙ e,
      sent.wrote.bytes
          ∙ ap (λ l. splice 0 (take (length body) body) l)
              (contents-moved_to sm_write 0 blank_message ∙ blank-contents)
          ∙ ap (λ l. splice 0 l []) (take_self body)
          ∙ splice_end 0 body [] (omega arith),
    )

get_ok :
    (reply : Reply) (r : HttpRequest) (l : Ledger) {msg msg1 : Archive}
    → (reply.response_code == 200) ≡ true
    → message_of r ≡ some msg
    → write reply.body (length reply.body) (set_message_mode sm_write msg) ≡ some msg1
    → get_cb reply r l ≡ get_final (some msg1) reply r l
unfolding get_cb
get_ok reply r l e m w = rw (e, m, w) refl

get_other :
    (reply : Reply) (r : HttpRequest) (l : Ledger) {msg : Archive}
    → (reply.response_code == 200) ≡ false
    → (reply.response_code == 301 || reply.response_code == 302) ≡ false
    → message_of r ≡ some msg
    → get_cb reply r l ≡ get_final (some msg) reply r l
unfolding get_cb
get_other reply r l e f m = rw (e, f, m) refl

message_lem :
    (r : HttpRequest) {msg : Response} → r.respone_msg ≡ some msg → message_of r ≡ some msg.message
unfolding message_of
message_lem r e = rw e refl

-- What the message holds when Lua gets it.
abbrev pub delivered : Reply → List ℕ
delivered reply = if reply.response_code == 200 then reply.body else []

answer_lem :
    (reply : Reply) (r : HttpRequest) (l : Ledger) (others : List ℕ)
    → IsPending get_method r l others
    → (reply.response_code == 301 || reply.response_code == 302) ≡ false
    → message_of r ≡ some blank_message
    → Answerable r.thread r.thread_ref reply.yielded
    → length reply.body < int_half
    → (msg : Archive) × (l' : Ledger) × (get_cb reply r l
        ≡ some (none, answer r.thread reply.response_code (some msg) ∷ [], l'))
      × Balance l' others
      × (contents msg.stream ≡ delivered reply)
answer_lem reply r l others p not_moved m ok small =
    elim (Bool-cases (reply.response_code == 200)) [
      | inl e ↦
          let (msg, w, same) = body_lem reply.body small in
          let (l', f, b) = get_final_lem (some msg) reply r l others p ok in
          (msg, l', get_ok reply r l e m w ∙ f, b, rw e same)
      | inr e ↦
          let (l', f, b) = get_final_lem (some blank_message) reply r l others p ok in
          (blank_message, l', get_other reply r l e not_moved m ∙ f, b, rw e blank-contents)
    ]

-- A GET request whose URL is parsed and which libevent makes is sent, goes on after every redirecting
-- reply whose place is parsed and where libevent makes the request again, and is answered by the first
-- other reply, whatever its code: the redirecting replies lead to no call of Lua, that reply to one,
-- with the code and a message that holds the body of a 200 and nothing otherwise, through the coroutine
-- that was given and waits, or else through the dispatcher. By then all that was allocated for the request has been freed, nothing else and nothing
-- twice. An int holds the size of the body.
pub get_life :
    (st : Started) (co : Option ℕ) (l : Ledger) (others : List ℕ) (replies : List Reply)
    (reply : Reply)
    → Balance l others
    → IsStarted st
    → Redirects replies
    → (reply.response_code == 301 || reply.response_code == 302) ≡ false
    → Waits co reply.yielded
    → length reply.body < int_half
    → (r : HttpRequest) × (l1 : Ledger) × (r1 : HttpRequest) × (l2 : Ledger) × (msg : Archive)
      × (l3 : Ledger) × (send_http get_method true false st co l ≡ some (some r, l1))
      × (follow replies r l1 ≡ some (r1, [], l2))
      × (get_cb reply r1 l2 ≡ some (none, answer co reply.response_code (some msg) ∷ [], l3))
      × (contents msg.stream ≡ delivered reply)
      × Balance l3 others
unfolding with_caller
get_life st co l others replies reply b started redirects not_moved waits small =
    let (cn, la, (l1, e1, p1)) = send_lem false st co l others started b in
    let r : HttpRequest =
      with_caller (record (new_request l) { cn = some cn; req = true }) co (new_ref co la).0
        (new_ref co la).1.next in
    let (r1, l2, e2, p2, same) = follow_lem replies r l1 others redirects p1 in
    let (msg, l3, e3, b3, holds) =
      answer_lem reply r1 l2 others p2 not_moved (message_lem r1 same.respone_msg)
        (subst (λ t. Answerable t r1.thread_ref reply.yielded) (sym same.thread)
          (subst (λ t. Answerable co t reply.yielded) (sym same.thread_ref)
            (ref-Answerable co reply.yielded la waits)))
        small in
    (
      r,
      l1,
      r1,
      l2,
      msg,
      l3,
      e1,
      e2,
      subst
          (λ t. get_cb reply r1 l2 ≡ some (none, answer t reply.response_code (some msg) ∷ [], l3))
          same.thread e3,
      holds,
      b3,
    )
