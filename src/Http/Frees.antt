-- ===== src/Http/Frees.antt =====
-- What a request owns, and that `http_request_free` frees just that.
use event_server.Base.{ℕ, ◌≡◌, refl, Option, none, some, List, ◌∷◌}
use event_server.Base.Ledger.{
  Ledger, free, free_if, Balance, free-Balance, free_if-Balance, if_some,
}
use event_server.Http.{
  Method, get_method, post_method, Response, HttpRequest, free_response, http_request_free,
}

abbrev pub response_handles : Option Response → List ℕ → List ℕ
response_handles none hs = hs
response_handles (some msg) hs = if_some msg.lua_ref (msg.at ∷ hs)

-- What is freed with the record, but the response, the connection and the URI.
abbrev pub rest_handles : Method → HttpRequest → List ℕ → List ℕ
rest_handles get_method r hs = r.self ∷ hs
rest_handles post_method r hs = if_some r.content_type (if_some r.post_data (r.self ∷ hs))

abbrev pub handles : Method → HttpRequest → ℕ → ℕ → List ℕ → List ℕ
handles method r cn uri hs = response_handles r.respone_msg (cn ∷ uri ∷ rest_handles method r hs)

-- A request on its way: what it owns is live, and besides it `others`.
pub record IsPending (method : Method) (r : HttpRequest) (l : Ledger) (others : List ℕ)
    : Type 0 where
  pub cn : ℕ
  pub uri : ℕ
  pub has_cn : r.cn ≡ some cn
  pub has_uri : r.uri ≡ some uri
  pub balance : Balance l (if_some r.thread_ref (handles method r cn uri others))

response_lem :
    (msg : Option Response) (l : Ledger) (hs : List ℕ)
    → Balance l (response_handles msg hs)
    → (l' : Ledger) × (free_response msg l ≡ some l') × Balance l' hs
unfolding free_response
response_lem none l hs b = (l, refl, b)
response_lem (some msg) l hs b =
    let (l1, e1, b1) = free_if-Balance msg.lua_ref l (msg.at ∷ hs) b in
    let (l2, e2, b2) = free-Balance msg.at l1 hs b1 in (l2, rw e1 e2, b2)

free_get :
    (r : HttpRequest) (l : Ledger) {cn uri : ℕ} {l1 l2 l3 l4 : Ledger}
    → r.cn ≡ some cn
    → r.uri ≡ some uri
    → free_response r.respone_msg l ≡ some l1
    → free cn l1 ≡ some l2
    → free uri l2 ≡ some l3
    → free r.self l3 ≡ some l4
    → http_request_free r get_method l ≡ some l4
unfolding http_request_free
free_get r l c u e1 e2 e3 e4 = rw (e1, c, e2, u, e3, e4)

free_post :
    (r : HttpRequest) (l : Ledger) {cn uri : ℕ} {l1 l2 l3 l4 l5 l6 : Ledger}
    → r.cn ≡ some cn
    → r.uri ≡ some uri
    → free_response r.respone_msg l ≡ some l1
    → free cn l1 ≡ some l2
    → free uri l2 ≡ some l3
    → free_if r.content_type l3 ≡ some l4
    → free_if r.post_data l4 ≡ some l5
    → free r.self l5 ≡ some l6
    → http_request_free r post_method l ≡ some l6
unfolding http_request_free
free_post r l c u e1 e2 e3 e4 e5 e6 = rw (e1, c, e2, u, e3, e4, e5, e6)

pub http_request_free_lem :
    (method : Method) (r : HttpRequest) (cn uri : ℕ) (l : Ledger) (hs : List ℕ)
    → r.cn ≡ some cn
    → r.uri ≡ some uri
    → Balance l (handles method r cn uri hs)
    → (l' : Ledger) × (http_request_free r method l ≡ some l') × Balance l' hs
http_request_free_lem get_method r cn uri l hs c u b =
    let (l1, e1, b1) = response_lem r.respone_msg l (cn ∷ uri ∷ r.self ∷ hs) b in
    let (l2, e2, b2) = free-Balance cn l1 (uri ∷ r.self ∷ hs) b1 in
    let (l3, e3, b3) = free-Balance uri l2 (r.self ∷ hs) b2 in
    let (l4, e4, b4) = free-Balance r.self l3 hs b3 in (l4, free_get r l c u e1 e2 e3 e4, b4)
http_request_free_lem post_method r cn uri l hs c u b =
    let end : List ℕ = if_some r.content_type (if_some r.post_data (r.self ∷ hs)) in
    let (l1, e1, b1) = response_lem r.respone_msg l (cn ∷ uri ∷ end) b in
    let (l2, e2, b2) = free-Balance cn l1 (uri ∷ end) b1 in
    let (l3, e3, b3) = free-Balance uri l2 end b2 in
    let (l4, e4, b4) = free_if-Balance r.content_type l3 (if_some r.post_data (r.self ∷ hs)) b3 in
    let (l5, e5, b5) = free_if-Balance r.post_data l4 (r.self ∷ hs) b4 in
    let (l6, e6, b6) = free-Balance r.self l5 hs b5 in (l6, free_post r l c u e1 e2 e3 e4 e5 e6, b6)
