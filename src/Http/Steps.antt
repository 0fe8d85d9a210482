-- ===== src/Http/Steps.antt =====
-- The steps in the life of a GET request: started, redirected, answered.
use event_server.Base.{
  ℕ, ◌+◌, ◌≡◌, refl, sym, subst, Bool, true, false, ◌||◌, Option, none, some, List, [], ◌∷◌, arith,
  ◌==◌,
}
use event_server.Base.Ledger.{
  Ledger, allocate, free, free_if, Balance, allocate-Balance, free-Balance, free_if-Balance,
  if_some, count,
}
use event_server.Archive.{Archive}
use event_server.Http.{
  Method, get_method, Response, HttpRequest, Started, Reply, Call, dispatched, resumed,
  http_request_free, lua_proc, get_final, cmd_event_httpget, start_url_request, make_request,
  redirect, new_if,
}
use event_server.Http.Frees.{
  IsPending, handles, rest_handles, response_handles, http_request_free_lem,
}

-- Lua can be called: the dispatcher, which has no reference to drop, or a coroutine that waits.
unfoldable pub Answerable : Option ℕ → Option ℕ → Bool → Type 0
Answerable none thread_ref yielded = thread_ref ≡ none
Answerable (some co) thread_ref yielded = yielded ≡ true

-- The call that the request is made for.
unfoldable pub answer : Option ℕ → ℕ → Option Archive → Call
answer none code msg = dispatched cmd_event_httpget code msg
answer (some co) code msg = resumed co code msg

lua_lem :
    (thread thread_ref : Option ℕ) (r : HttpRequest) (msg : Option Archive) (code : ℕ)
    (yielded : Bool) (l : Ledger) (hs : List ℕ)
    → r.thread ≡ thread
    → r.thread_ref ≡ thread_ref
    → Answerable thread thread_ref yielded
    → Balance l (if_some thread_ref hs)
    → (l' : Ledger) × (lua_proc cmd_event_httpget msg code r yielded l
        ≡ some (answer thread code msg ∷ [], l'))
      × Balance l' hs
unfolding lua_proc answer Answerable
lua_lem none thread_ref r msg code yielded l hs e f ok b =
    (l, rw e refl, subst (λ o. Balance l (if_some o hs)) ok b)
lua_lem (some co) thread_ref r msg code yielded l hs e f ok b =
    let (l', g, b') = free_if-Balance thread_ref l hs b in (l', rw (e, ok, f, g) refl, b')

final_run :
    (msg : Option Archive) (reply : Reply) (r : HttpRequest) (l : Ledger) {calls : List Call}
    {l1 l2 : Ledger}
    → lua_proc cmd_event_httpget msg reply.response_code r reply.yielded l ≡ some (calls, l1)
    → http_request_free r get_method l1 ≡ some l2
    → get_final msg reply r l ≡ some (none, calls, l2)
unfolding get_final
final_run msg reply r l e f = rw (e, f)

pub get_final_lem :
    (msg : Option Archive) (reply : Reply) (r : HttpRequest) (l : Ledger) (others : List ℕ)
    → IsPending get_method r l others
    → Answerable r.thread r.thread_ref reply.yielded
    → (l' : Ledger) × (get_final msg reply r l
        ≡ some (none, answer r.thread reply.response_code msg ∷ [], l'))
      × Balance l' others
get_final_lem msg reply r l others p ok =
    let (l1, e1, b1) =
      lua_lem r.thread r.thread_ref r msg reply.response_code reply.yielded l
        (handles get_method r p.cn p.uri others) refl refl ok p.balance in
    let (l2, e2, b2) =
      http_request_free_lem get_method r p.cn p.uri l1 others p.has_cn p.has_uri b1 in
    (l2, final_run msg reply r l e1 e2, b2)

-- Counting past the handles of pointers that may be null.
pub count-if_some :
    (k : ℕ) (o : Option ℕ) (hs : List ℕ)
    → count k (if_some o hs) ≡ count k (if_some o []) + count k hs
count-if_some k none hs = omega arith
count-if_some k (some h) hs = omega arith

pub count-response :
    (k : ℕ) (msg : Option Response) (hs : List ℕ)
    → count k (response_handles msg hs) ≡ count k (response_handles msg []) + count k hs
count-response k none hs = omega arith
count-response k (some msg) hs =
    omega
      (arith, count-if_some k msg.lua_ref (msg.at ∷ hs), count-if_some k msg.lua_ref (msg.at ∷ []))

-- The handles of a request, the connection and the URI in front.
unfoldable pub ahead : Method → HttpRequest → List ℕ → List ℕ
ahead method r others =
    if_some r.thread_ref (response_handles r.respone_msg (rest_handles method r others))

pub count-handles :
    (k : ℕ) (r : HttpRequest) (cn uri : ℕ) (others : List ℕ)
    → count k (if_some r.thread_ref (handles get_method r cn uri others))
      ≡ count k (cn ∷ uri ∷ ahead get_method r others)
unfolding ahead
count-handles k r cn uri others = omega (
  arith,
  count-if_some k r.thread_ref (handles get_method r cn uri others),
  count-if_some k r.thread_ref (response_handles r.respone_msg (r.self ∷ others)),
  count-response k r.respone_msg (cn ∷ uri ∷ r.self ∷ others),
  count-response k r.respone_msg (r.self ∷ others),
)

start_run :
    (st : Started) (r : HttpRequest) (l : Ledger) {uri : ℕ} {l1 : Ledger}
    → free_if r.cn l ≡ some l1
    → r.uri ≡ some uri
    → st.requested ≡ true
    → st.failed ≡ false
    → start_url_request get_method st r l
      ≡ some (st.ret, record r { cn = some l1.next; req = true }, (allocate l1).1)
unfolding start_url_request make_request
start_run st r l e u q f = rw (e, u, q, f)

-- The request of libevent was made, and has not failed at once.
pub record IsStarted (st : Started) : Type 0 where
  pub requested : st.requested ≡ true
  pub not_failed : st.failed ≡ false

pub start_lem :
    (st : Started) (r : HttpRequest) (l : Ledger) (uri : ℕ) (hs : List ℕ)
    → IsStarted st
    → r.uri ≡ some uri
    → Balance l (if_some r.cn hs)
    → (cn : ℕ) × (l' : Ledger) × (start_url_request get_method st r l
        ≡ some (st.ret, record r { cn = some cn; req = true }, l'))
      × Balance l' (cn ∷ hs)
unfolding allocate
start_lem st r l uri hs ok u b =
    let (l1, e, b1) = free_if-Balance r.cn l hs b in
    (
      l1.next,
      (allocate l1).1,
      start_run st r l e u ok.requested ok.not_failed,
      allocate-Balance l1 hs b1,
    )

-- A reply that sends the request elsewhere.
pub record IsRedirect (reply : Reply) : Type 0 where
  pub code : (reply.response_code == 301 || reply.response_code == 302) ≡ true
  pub parsed : reply.location ≡ some true
  pub started : IsStarted reply.again

redirect_run :
    (reply : Reply) (r : HttpRequest) (l : Ledger) {uri ret : ℕ} {l2 l3 : Ledger} {r1 : HttpRequest}
    → reply.location ≡ some true
    → r.uri ≡ some uri
    → free uri (allocate l).1 ≡ some l2
    → start_url_request get_method reply.again (record r { uri = some l.next }) l2
      ≡ some (ret, r1, l3)
    → redirect get_method reply r l ≡ some (some r1, [], l3)
unfolding redirect new_if
redirect_run reply r l e u f s = rw (e, u, f, s)

-- The parts of a request that redirecting leaves alone.
pub record SameCaller (r r1 : HttpRequest) : Type 0 where
  pub thread : r1.thread ≡ r.thread
  pub thread_ref : r1.thread_ref ≡ r.thread_ref
  pub respone_msg : r1.respone_msg ≡ r.respone_msg

pub redirect_lem :
    (reply : Reply) (r : HttpRequest) (l : Ledger) (others : List ℕ)
    → IsRedirect reply
    → IsPending get_method r l others
    → (r1 : HttpRequest) × (l1 : Ledger) × (redirect get_method reply r l ≡ some (some r1, [], l1))
      × IsPending get_method r1 l1 others
      × SameCaller r r1
unfolding Balance ahead allocate
redirect_lem reply r l others ok p =
    let new : ℕ = l.next in
    let kept : List ℕ = ahead get_method r others in
    let b0 : Balance (allocate l).1
        (new ∷ if_some r.thread_ref (handles get_method r p.cn p.uri others)) =
      allocate-Balance l _ p.balance in
    let (l2, e2, b2) =
      free-Balance p.uri (allocate l).1 (p.cn ∷ new ∷ kept)
        (λ k. omega (arith, b0 k, count-handles k r p.cn p.uri others)) in
    let (cn, l3, e3, b3) =
      start_lem reply.again (record r { uri = some new }) l2 new (new ∷ kept) ok.started refl
        (subst (λ o. Balance l2 (if_some o (new ∷ kept))) (sym p.has_cn) b2) in
    let r1 : HttpRequest = record r { uri = some new; cn = some cn; req = true } in
    (
      r1,
      l3,
      redirect_run reply r l ok.parsed p.has_uri e2 e3,
      record {
        cn = cn;
        uri = new;
        has_cn = refl;
        has_uri = refl;
        balance = λ k. omega (arith, b3 k, count-handles k r1 cn new others);
      },
      record { thread = refl; thread_ref = refl; respone_msg = refl },
    )
