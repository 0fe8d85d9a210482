-- ===== src/Http/Tests.antt =====
-- A request that is redirected once and answered, one that fails at once, and a POST of a coroutine.
use event_server.Base.{◌≡◌, refl, true, false, none, some, [], ◌∷◌, arith}
use event_server.Base.Ledger.{Ledger, Balance}
use event_server.MemFile.{contents}
use event_server.Archive.{Archive}
use event_server.Http.{
  get_method, post_method, HttpRequest, Started, Reply, send_http, get_cb, post_cb, dispatched,
  cmd_event_httppost,
}
use event_server.Http.Frees.{IsPending}
use event_server.Http.Steps.{IsStarted, IsRedirect, answer}
use event_server.Http.Life.{arrived, moved, follow, Waits}
use event_server.Http.Answered.{delivered, get_life}
use event_server.Http.Leaks.{post_cb-leaks}

abbrev nothing : Ledger
nothing = record { next = 0; live = [] }

nothing-Balance : Balance nothing []
unfolding Balance
nothing-Balance k = refl

abbrev made : Started
made = record { requested = true; failed = false; ret = 0 }

made-IsStarted : IsStarted made
made-IsStarted = record { requested = refl; not_failed = refl }

abbrev elsewhere : Reply
elsewhere = record {
  response_code = 302;
  body = [];
  location = some true;
  again = made;
  yielded = true;
}

elsewhere-IsRedirect : IsRedirect elsewhere
elsewhere-IsRedirect = record { code = refl; parsed = refl; started = made-IsStarted }

abbrev found : Reply
found = record {
  response_code = 200;
  body = 104 ∷ 105 ∷ [];
  location = none;
  again = made;
  yielded = true;
}

get_life_example :
    (r : HttpRequest) × (l1 : Ledger) × (r1 : HttpRequest) × (l2 : Ledger) × (msg : Archive)
    × (l3 : Ledger) × (send_http get_method true false made (some 7) nothing ≡ some (some r, l1))
    × (follow (elsewhere ∷ []) r l1 ≡ some (r1, [], l2))
    × (get_cb found r1 l2 ≡ some (none, answer (some 7) 200 (some msg) ∷ [], l3))
    × (contents msg.stream ≡ delivered found)
    × Balance l3 []
unfolding Waits
get_life_example =
    get_life made (some 7) nothing [] (elsewhere ∷ []) found nothing-Balance made-IsStarted
      (moved elsewhere [] elsewhere-IsRedirect arrived) refl refl (omega arith)

abbrev failing : Started
failing = record { requested = true; failed = true; ret = 0 }

abbrev posting : HttpRequest
posting = record {
  self = 1;
  thread = some 7;
  thread_ref = some 6;
  respone_msg = none;
  uri = some 2;
  cn = some 5;
  req = true;
  content_type = some 3;
  post_data = some 4;
}

abbrev six : Ledger
six = record { next = 7; live = 6 ∷ 5 ∷ 4 ∷ 3 ∷ 2 ∷ 1 ∷ [] }

posting-IsPending : IsPending post_method posting six []
unfolding Balance
posting-IsPending = record {
  cn = 5;
  uri = 2;
  has_cn = refl;
  has_uri = refl;
  balance = λ k. omega arith;
}

post_cb_example :
    (l' : Ledger) × (post_cb found posting six
      ≡ some (none, dispatched cmd_event_httppost 0 none ∷ [], l'))
    × Balance l' (6 ∷ [])
post_cb_example = post_cb-leaks found posting six [] 6 posting-IsPending refl refl
