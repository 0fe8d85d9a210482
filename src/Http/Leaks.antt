-- ===== src/Http/Leaks.antt =====
-- What stays allocated: the parts of a GET request that fails at once, and the reference to the
-- coroutine that waits for a POST request.
use event_server.Base.{
  ℕ, ◌≡◌, refl, sym, ap, ◌∙◌, false, none, some, List, [], ◌∷◌, arith, ◌==◌, if◌then◌else◌,
}
use event_server.Base.Ledger.{Ledger, Balance, if_some, count}
use event_server.Http.{
  post_method, HttpRequest, Reply, dispatched, http_request_free, post_cb, cmd_event_httppost,
}
use event_server.Http.Frees.{IsPending, handles, http_request_free_lem}
use event_server.Http.Steps.{count-if_some, count-response}

count-handles_rest :
    (k : ℕ) (r : HttpRequest) (cn uri h : ℕ) (hs : List ℕ)
    → count k (handles post_method r cn uri (h ∷ hs))
      ≡ count k (h ∷ handles post_method r cn uri hs)
count-handles_rest k r cn uri h hs = omega (
  arith,
  count-response k r.respone_msg (front (h ∷ hs)),
  count-response k r.respone_msg (front hs),
  count-if_some k r.content_type (if_some r.post_data (r.self ∷ h ∷ hs)),
  count-if_some k r.content_type (if_some r.post_data (r.self ∷ hs)),
  count-if_some k r.post_data (r.self ∷ h ∷ hs),
  count-if_some k r.post_data (r.self ∷ hs),
)
  where
    front : List ℕ → List ℕ
    front l = cn ∷ uri ∷ if_some r.content_type (if_some r.post_data (r.self ∷ l))

post_run :
    (reply : Reply) (r : HttpRequest) (l : Ledger) {l1 : Ledger}
    → (reply.response_code == 302) ≡ false
    → http_request_free r post_method l ≡ some l1
    → post_cb reply r l
      ≡ some (
        none,
        if reply.response_code == 301 then [] else dispatched cmd_event_httppost 0 none ∷ [],
        l1,
      )
unfolding post_cb
post_run reply r l e f = rw (e, f) refl

-- The coroutine that was given with a POST request is not resumed by any reply that ends the request:
-- Lua is called, if at all, through the dispatcher, after a 301 not even that; and the reference to
-- the coroutine stays, while all else that the request owns is freed.
pub post_cb-leaks :
    (reply : Reply) (r : HttpRequest) (l : Ledger) (others : List ℕ) (ref : ℕ)
    → IsPending post_method r l others
    → r.thread_ref ≡ some ref
    → (reply.response_code == 302) ≡ false
    → (l' : Ledger) × (post_cb reply r l
        ≡ some (
          none,
          if reply.response_code == 301 then [] else dispatched cmd_event_httppost 0 none ∷ [],
          l',
        ))
      × Balance l' (ref ∷ others)
unfolding Balance
post_cb-leaks reply r l others ref p e not_moved =
    let (l', f, b) =
      http_request_free_lem post_method r p.cn p.uri l (ref ∷ others) p.has_cn p.has_uri (λ k.
        p.balance k
        ∙ ap (λ o. count k (if_some o (handles post_method r p.cn p.uri others))) e
        ∙ sym (count-handles_rest k r p.cn p.uri ref others)) in
    (l', post_run reply r l not_moved f, b)
