-- ===== src/Http/Life.antt =====
-- The life of a GET request: sent, redirected any number of times, answered, freed.
use event_server.Base.{
  ◌++◌, ℕ, suc, ◌≡◌, refl, ◌∙◌, Bool, true, false, ◌||◌, Option, none, some, List, [], ◌∷◌, arith,
  ◌==◌,
}
use event_server.Base.Memory.{◌>>=◌}
use event_server.Base.Ledger.{Ledger, allocate, Balance, allocate-Balance, if_some}
use event_server.MemFile
use event_server.MemFile.{contents}
use event_server.Archive.{Archive, sm_write, fresh}
use event_server.Server.{set_message_mode}
use event_server.Http.{
  Call, get_method, HttpRequest, Started, Reply, get_cb, start_url_request, redirect, new_if,
  send_http, start_http_requset, http_request_new,
}
use event_server.Http.Frees.{IsPending}
use event_server.Http.Steps.{
  Answerable, IsStarted, start_lem, IsRedirect, SameCaller, redirect_lem, ahead, count-if_some,
}

-- A new message in write mode.
abbrev pub blank_message : Archive
blank_message = set_message_mode sm_write (fresh MemFile.empty)

unfoldable pub new_request : Ledger → HttpRequest
new_request l = record {
  self = l.next;
  thread = none;
  thread_ref = none;
  respone_msg = none;
  uri = some (suc l.next);
  cn = none;
  req = false;
  content_type = none;
  post_data = none;
}

unfoldable pub new_ledger : Ledger → Ledger
new_ledger l = (allocate (allocate l).1).1

-- What `send_http_get` adds to a request that was made.
unfoldable pub with_caller : HttpRequest → Option ℕ → Option ℕ → ℕ → HttpRequest
with_caller r co ref at = record r {
  thread = co;
  thread_ref = ref;
  respone_msg = some record { at = at; lua_ref = none; message = blank_message };
}

-- The reference to the coroutine, if there is one.
unfoldable pub new_ref : Option ℕ → Ledger → Option ℕ × Ledger
new_ref co l = new_if (elim co [ none ↦ false | some c ↦ true ]) l

send_run :
    (posted : Bool) (st : Started) (co : Option ℕ) (l : Ledger) {ret : ℕ} {r1 : HttpRequest}
    {l1 : Ledger}
    → start_url_request get_method st (new_request l) (new_ledger l) ≡ some (ret, r1, l1)
    → r1.req ≡ true
    → send_http get_method true posted st co l
      ≡ some (
        some (with_caller r1 co (new_ref co l1).0 (new_ref co l1).1.next),
        (allocate (new_ref co l1).1).1,
      )
unfolding send_http start_http_requset http_request_new new_if allocate new_request new_ledger
    with_caller new_ref
send_run posted st co l s q = rw (s, q) refl

ref-Balance :
    (co : Option ℕ) (l : Ledger) (hs : List ℕ)
    → Balance l hs
    → Balance (new_ref co l).1 (if_some (new_ref co l).0 hs)
unfolding new_ref new_if allocate
ref-Balance none l hs b = b
ref-Balance (some c) l hs b = allocate-Balance l hs b

-- A coroutine, if there is one, has yielded.
unfoldable pub Waits : Option ℕ → Bool → Type 0
Waits none yielded = Unit
Waits (some co) yielded = yielded ≡ true

pub ref-Answerable :
    (co : Option ℕ) (yielded : Bool) (l : Ledger)
    → Waits co yielded
    → Answerable co (new_ref co l).0 yielded
unfolding new_ref new_if Answerable Waits
ref-Answerable none yielded l ok = refl
ref-Answerable (some c) yielded l ok = ok

pub new-Balance :
    (l : Ledger) (others : List ℕ)
    → Balance l others
    → Balance (new_ledger l) (suc l.next ∷ l.next ∷ others)
unfolding new_ledger allocate Balance
new-Balance l others b k = omega (arith, b k)

pub send_lem :
    (posted : Bool) (st : Started) (co : Option ℕ) (l : Ledger) (others : List ℕ)
    → IsStarted st
    → Balance l others
    → (cn : ℕ) × (l1 : Ledger) × let r : HttpRequest =
          with_caller
            (record (new_request l) { cn = some cn; req = true })
            co
            (new_ref co l1).0
            (new_ref co l1).1.next in
        (l' : Ledger) × (send_http get_method true posted st co l ≡ some (some r, l'))
        × IsPending get_method r l' others
unfolding Balance ahead new_request with_caller allocate
send_lem posted st co l others ok b =
    let first : ℕ = l.next in
    let owned : List ℕ = (suc first) ∷ first ∷ others in
    let (cn, l1, e1, b1) =
      start_lem st (new_request l) (new_ledger l) (suc first) owned ok refl
        (new-Balance l others b) in
    let (ref, l2) = new_ref co l1 in
    let b2 = ref-Balance co l1 (cn ∷ owned) b1 in
    let b3 = allocate-Balance l2 (if_some ref (cn ∷ owned)) b2 in
    (
      cn,
      l1,
      (
        (allocate l2).1,
        send_run posted st co l e1 refl,
        record {
          cn = cn;
          uri = suc first;
          has_cn = refl;
          has_uri = refl;
          balance = λ k. omega (
            arith,
            b3 k,
            count-if_some k ref (cn ∷ owned),
            count-if_some k ref (l2.next ∷ cn ∷ owned),
          );
        },
      ),
    )

-- The replies that send the request elsewhere, one after the other, with the calls of Lua that they
-- lead to.
unfoldable pub follow :
    List Reply → HttpRequest → Ledger → Option (HttpRequest × List Call × Ledger)
follow [] r l = some (r, [], l)
follow (reply ∷ more) r l = do
  (next, calls, l1) ← get_cb reply r l
  r1 ← next
  (r2, later, l2) ← follow more r1 l1
  some (r2, calls ++ later, l2)

pub data Redirects : List Reply → Type 0 where
  arrived : Redirects []
  moved :
      (reply : Reply) (more : List Reply)
      → IsRedirect reply
      → Redirects more
      → Redirects (reply ∷ more)

get_redirect :
    (reply : Reply) (r : HttpRequest) (l : Ledger)
    → (reply.response_code == 301 || reply.response_code == 302) ≡ true
    → get_cb reply r l ≡ redirect get_method reply r l
unfolding get_cb
get_redirect reply r l e = rw (not_ok reply.response_code e, e) refl
  where
    not_ok : (c : ℕ) → (c == 301 || c == 302) ≡ true → (c == 200) ≡ false
    not_ok c e = ground arith

follow_run :
    (reply : Reply) (more : List Reply) (r : HttpRequest) (l : Ledger) {r1 r2 : HttpRequest}
    {l1 l2 : Ledger}
    → get_cb reply r l ≡ some (some r1, [], l1)
    → follow more r1 l1 ≡ some (r2, [], l2)
    → follow (reply ∷ more) r l ≡ some (r2, [], l2)
unfolding follow
follow_run reply more r l e f = rw (e, f) refl

follow_end : (r : HttpRequest) (l : Ledger) → follow [] r l ≡ some (r, [], l)
unfolding follow
follow_end r l = refl

SameCaller-trans : {r s t : HttpRequest} → SameCaller r s → SameCaller s t → SameCaller r t
SameCaller-trans p q = record {
  thread = q.thread ∙ p.thread;
  thread_ref = q.thread_ref ∙ p.thread_ref;
  respone_msg = q.respone_msg ∙ p.respone_msg;
}

pub follow_lem :
    (replies : List Reply) (r : HttpRequest) (l : Ledger) (others : List ℕ)
    → Redirects replies
    → IsPending get_method r l others
    → (r1 : HttpRequest) × (l1 : Ledger) × (follow replies r l ≡ some (r1, [], l1))
      × IsPending get_method r1 l1 others
      × SameCaller r r1
follow_lem [] r l others arrived p =
    (r, l, follow_end r l, p, record { thread = refl; thread_ref = refl; respone_msg = refl })
follow_lem (reply ∷ more) r l others (moved _ _ ok oks) p =
    let (r1, l1, e, p1, same) = redirect_lem reply r l others ok p in
    let (r2, l2, f, p2, same2) = follow_lem more r1 l1 others oks p1 in
    (
      r2,
      l2,
      follow_run reply more r l (get_redirect reply r l ok.code ∙ e) f,
      p2,
      SameCaller-trans same same2,
    )
