-- ===== src/Http.antt =====
-- EventServer.cpp: the requests of the HTTP client, from `send_http_get` and `send_http_post` to the
-- callback that frees them. libevent is not modelled: a `Started` and a `Reply` say what its calls did.
-- Its functions take no null pointers, but where the code tests for one.
pub mod Frees
pub mod Steps
pub mod Life
pub mod Answered
pub mod Leaks
mod Tests
use event_server.Base.{
  ℕ, zero, suc, Bool, true, false, not, ◌&&◌, ◌||◌, Option, none, some, List, [], ◌∷◌, ◌++◌, ◌==◌,
  if◌then◌else◌, length,
}
use event_server.Base.Memory.{◌>>=◌}
use event_server.Base.Ledger.{Ledger, allocate, free, free_if}
use event_server.MemFile
use event_server.Archive.{Archive, sm_write, fresh}
use event_server.Archive.Serial.{write}
use event_server.Server.{set_message_mode}

pub data Method : Type 0 where
  get_method post_method : Method

-- `respone_msg`; `lua_ref` is none for -1.
pub record Response : Type 0 where
  pub at : ℕ
  pub lua_ref : Option ℕ
  pub message : Archive

-- `http_request_get` and `http_request_post`. `self` is where the record lies, `req` that the request of
-- libevent is not null. `thread_ref` is none for -1.
pub record HttpRequest : Type 0 where
  pub self : ℕ
  pub thread : Option ℕ
  pub thread_ref : Option ℕ
  pub respone_msg : Option Response
  pub uri : Option ℕ
  pub cn : Option ℕ
  pub req : Bool
  pub content_type : Option ℕ
  pub post_data : Option ℕ

-- What Lua is called with: the dispatcher with a command, or a coroutine; a code, and the message.
pub data Call : Type 0 where
  dispatched : (cmd code : ℕ) (msg : Option Archive) → Call
  resumed : (co code : ℕ) (msg : Option Archive) → Call

-- `HTTP_OK` and the like, and the commands.
abbrev pub http_ok : ℕ
http_ok = 200

abbrev pub http_moveperm : ℕ
http_moveperm = 301

abbrev pub http_movetemp : ℕ
http_movetemp = 302

abbrev pub cmd_event_httpget : ℕ
cmd_event_httpget = 6

abbrev pub cmd_event_httppost : ℕ
cmd_event_httppost = 7

-- One `start_url_request`: whether `evhttp_request_new` gave a request, whether the callback was called
-- with a null pointer before `evhttp_make_request` came back, and what that returned.
pub record Started : Type 0 where
  pub requested : Bool
  pub failed : Bool
  pub ret : ℕ

-- `http_requset_post_cb` and `http_requset_get_cb` with a null pointer.
unfoldable pub failed_cb : HttpRequest → HttpRequest
failed_cb r = record r { req = false }

-- `evhttp_make_request` and what follows it: a header is added if the request is there. A request that
-- was not made is freed by then; the code for a POST writes to it all the same.
unfoldable pub make_request :
    Method → Started → HttpRequest → Ledger → Option (ℕ × HttpRequest × Ledger)
make_request get_method st r l = some (st.ret, if st.failed then failed_cb r else r, l)
make_request post_method st r l =
    if st.failed || not (st.ret == 0)
    then none
    else elim r.post_data [ none ↦ none | some text ↦ some (0, r, l) ]

unfoldable pub start_url_request :
    Method → Started → HttpRequest → Ledger → Option (ℕ × HttpRequest × Ledger)
start_url_request method st r l = do
  l1 ← free_if r.cn l
  uri ← r.uri
  let r1 : HttpRequest = record r { cn = some l1.next; req = st.requested }
  if st.requested then make_request method st r1 (allocate l1).1 else some (0, r1, (allocate l1).1)

-- A pointer that is null unless `given`.
unfoldable pub new_if : Bool → Ledger → Option ℕ × Ledger
new_if false l = (none, l)
new_if true l = (some l.next, (allocate l).1)

-- `parsed` says that `evhttp_uri_parse` took the URL, `posted` that there is data to post.
unfoldable pub http_request_new : Method → Bool → Bool → Ledger → HttpRequest × Ledger
http_request_new method parsed posted l =
    let (self, l1) = allocate l in
    let (uri, l2) = new_if parsed l1 in
    let (content_type, l3) = new_if (elim method [ get_method ↦ false | post_method ↦ true ]) l2 in
    let (post_data, l4) = new_if (elim method [ get_method ↦ false | post_method ↦ posted ]) l3 in
    (
      record {
        self = self;
        thread = none;
        thread_ref = none;
        respone_msg = none;
        uri = uri;
        cn = none;
        req = false;
        content_type = content_type;
        post_data = post_data;
      },
      l4,
    )

unfoldable pub free_response : Option Response → Ledger → Option Ledger
free_response none l = some l
free_response (some msg) l = do l1 ← free_if msg.lua_ref l; free msg.at l1

unfoldable pub http_request_free : HttpRequest → Method → Ledger → Option Ledger
http_request_free r method l = do
  l1 ← free_response r.respone_msg l
  cn ← r.cn
  l2 ← free cn l1
  uri ← r.uri
  l3 ← free uri l2
  elim method [
    | get_method ↦ free r.self l3
    | post_method ↦ do l4 ← free_if r.content_type l3; l5 ← free_if r.post_data l4; free r.self l5
  ]

unfoldable pub start_http_requset :
    Method → Bool → Bool → Started → Ledger → Option (HttpRequest × Ledger)
start_http_requset method parsed posted st l = do
  let (r, l1) = http_request_new method parsed posted l
  (_, r1, l2) ← start_url_request method st r l1
  some (r1, l2)

-- `send_http_get` and `send_http_post` with a coroutine `co` or none: what they return, 0 as true, and
-- the request that is on its way then.
unfoldable pub send_http :
    Method → Bool → Bool → Started → Option ℕ → Ledger → Option (Option HttpRequest × Ledger)
send_http method parsed posted st co l = do
  (r, l1) ← start_http_requset method parsed posted st l
  if r.req
      then (let (thread_ref, l2) = new_if (elim co [ none ↦ false | some c ↦ true ]) l1 in
          some (
            some record r {
              thread = co;
              thread_ref = thread_ref;
              respone_msg = some record {
                at = l2.next;
                lua_ref = none;
                message = set_message_mode sm_write (fresh MemFile.empty);
              };
            },
            (allocate l2).1,
          ))
      else (do l2 ← free r.self l1; some (none, l2))

-- A reply: `response_code`, the body, the place that the header `Location` names, if there is one, and
-- whether it is parsed; what starting over does, and whether the coroutine waits.
pub record Reply : Type 0 where
  pub response_code : ℕ
  pub body : List ℕ
  pub location : Option Bool
  pub again : Started
  pub yielded : Bool

-- `_lua_proc` on a request, as far as the ledger goes; the calls that it makes of Lua, where the
-- dispatcher is a function.
unfoldable pub lua_proc :
    ℕ → Option Archive → ℕ → HttpRequest → Bool → Ledger → Option (List Call × Ledger)
lua_proc cmd msg code r yielded l = elim r.thread [
  | none ↦ some (dispatched cmd code msg ∷ [], l)
  | some co ↦ elim yielded [
    | true ↦ do l1 ← free_if r.thread_ref l; some (resumed co code msg ∷ [], l1)
    | false ↦ some ([], l)
  ]
]

-- What a callback leaves: the request, if it is still on its way, the calls of Lua, and the ledger.
abbrev pub Served : Type 0
Served = Option HttpRequest × List Call × Ledger

-- The cases of `HTTP_MOVETEMP`.
unfoldable pub redirect : Method → Reply → HttpRequest → Ledger → Option Served
redirect method reply r l = do
  parsed ← reply.location
  let (new_uri, l1) = new_if parsed l
  uri ← r.uri
  l2 ← free uri l1
  (_, r1, l3) ← start_url_request method reply.again (record r { uri = new_uri }) l2
  some (some r1, [], l3)

-- The message that the callbacks hand over.
unfoldable pub message_of : HttpRequest → Option Archive
message_of r = do msg ← r.respone_msg; some msg.message

unfoldable pub get_final : Option Archive → Reply → HttpRequest → Ledger → Option Served
get_final msg reply r l = do
  (calls, l1) ← lua_proc cmd_event_httpget msg reply.response_code r reply.yielded l
  l2 ← http_request_free r get_method l1
  some (none, calls, l2)

unfoldable pub get_cb : Reply → HttpRequest → Ledger → Option Served
get_cb reply r l =
    if reply.response_code == http_ok
    then (do
      msg ← message_of r
      msg1 ← write reply.body (length reply.body) (set_message_mode sm_write msg)
      get_final (some msg1) reply r l)
    else if reply.response_code == http_moveperm || reply.response_code == http_movetemp
    then redirect get_method reply r l
    else get_final (message_of r) reply r l

-- `proc_cb` gives the dispatcher the request of libevent, with a 0.
unfoldable pub post_cb : Reply → HttpRequest → Ledger → Option Served
post_cb reply r l =
    if reply.response_code == http_movetemp then redirect post_method reply r l else (do
      l1 ← http_request_free r post_method l
      some (
        none,
        if reply.response_code == http_moveperm
            then []
            else dispatched cmd_event_httppost 0 none ∷ [],
        l1,
      ))
