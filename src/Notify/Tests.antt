-- ===== src/Notify/Tests.antt =====
-- Two messages, handed over before and after the timer.
use event_server.Base.{
  ℕ, ◌≡◌, refl, inr, false, some, List, [], ◌∷◌, arith, replicate, length-replicate,
}
use event_server.FastBuf
use event_server.FastBuf.{FastBuf}
use event_server.MemFile.{cache, err_no}
use event_server.Archive.{Archive, sm_write}
use event_server.Notify.{Notice, Notices, Event, notified, timer, next_round, none_yet, run}
use event_server.Notify.Steps.{
  IsLarge, Larges, no_event, large, at_timer, at_round, pending, sent, shown,
}
use event_server.Notify.Order.{calls, run_lem}

abbrev letter : ℕ → Archive
letter n = record {
  stream = record {
    fast_buf = record {
      heapbuf = some (replicate 41 n);
      arrbuf = replicate 33 0;
      cp_len = 3;
      alloc_len = 40;
    };
    cur_pos = 0;
    error_code = err_no;
  };
  mode = sm_write;
  swapped = false;
  addresses = replicate 10 0;
  index = 0;
  version = 15;
  exe_cnt = 0;
}

letter-IsLarge : (n : ℕ) → IsLarge (letter n)
letter-IsLarge n = record {
  bytes = replicate 41 n;
  holds = record {
    backed = inr (omega arith, refl);
    inline_size = refl;
    size = length-replicate 41 n;
    used = omega arith;
  };
  heap = omega arith;
  wide = omega arith;
}

abbrev memory : ℕ → List Notice
memory n = replicate n (record { message = letter 0; system_data = 0 })

abbrev raw : FastBuf
raw = FastBuf.empty cache

abbrev day : List Event
day = notified raw 5 (letter 1) ∷ timer ∷ notified raw 6 (letter 2) ∷ next_round ∷ []

day-Larges : Larges day
day-Larges =
    large _ _ _ _ (letter-IsLarge 1)
      (at_timer _ (large _ _ _ _ (letter-IsLarge 2) (at_round _ no_event)))

run_example :
    (s : Notices) × (run memory day (none_yet memory) ≡ some s)
    × (pending s ≡ sent day)
    × (more : List Event) × (s1 : Notices) × (run memory more s ≡ some s1)
    × (calls more ≡ 0)
    × (shown s1.told ≡ sent day)
run_example =
    run_lem memory (λ n. length-replicate n (record { message = letter 0; system_data = 0 })) day
      day-Larges (omega arith)
