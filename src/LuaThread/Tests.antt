-- ===== src/LuaThread/Tests.antt =====
-- A task on its way through the worker, and its results.
use event_server.Base.{◌≡◌, refl, true, false, some, none, [], ◌∷◌, arith, ◌==◌, replicate}
use event_server.FastBuf.{FastBuf, contents}
use event_server.FastBuf.Holds.{Holds}
use event_server.LuaThread.{
  LuaTask, Outcome, System, cache, start, work, set_user_results, returned_value, post_check,
  post_push, take_task, finish, update_swap, update_next,
}
use event_server.LuaThread.Result.{work_lem, work-set_user_result}
use event_server.LuaThread.Steps.{
  checking, pushing, swapping, resuming, taking, finishing, Reachable, started, after,
}
use event_server.LuaThread.Order.{IsOrdered, Reachable-IsOrdered}

abbrev blank : FastBuf
blank = record { heapbuf = none; arrbuf = replicate 129 0; cp_len = 0; alloc_len = 128 }

blank-Holds : Holds cache blank (replicate 129 0)
blank-Holds = ground arith

abbrev task : LuaTask
task = record {
  main = some 1;
  cmdbuf = blank;
  retbuf = blank;
  co = some 7;
  time = 5;
  ref = some 3;
  ok = false;
  user_ret = false;
}

abbrev hello : Outcome
hello = record { user_results = []; status = 2; top = some (104 ∷ 105 ∷ []) }

abbrev silent : Outcome
silent = record { user_results = []; status = 0; top = none }

abbrev answered : Outcome
answered = record { user_results = []; status = 0; top = some (104 ∷ 105 ∷ []) }

abbrev handed_over : Outcome
handed_over = record { user_results = (104 ∷ 105 ∷ []) ∷ []; status = 0; top = none }

work_example :
    (t' : LuaTask) × (work hello task ≡ some t')
    × (t'.ok ≡ (2 == 0))
    × (contents cache t'.retbuf ≡ 104 ∷ 105 ∷ [])
    × (t'.co ≡ some 7)
work_example = work_lem hello task 7 (104 ∷ 105 ∷ []) refl refl refl blank-Holds (omega arith)

user_result_example :
    (t' : LuaTask) × (work handed_over task ≡ some t')
    × (t'.ok ≡ false)
    × (contents cache t'.retbuf ≡ [])
user_result_example =
    work-set_user_result handed_over task (104 ∷ 105 ∷ []) refl blank-Holds refl (omega arith)

-- The task when the worker is done with it, and the states that it goes through.
abbrev worked : LuaTask
worked = record task { ok = true }

abbrev resumed_state : System
resumed_state =
    update_next true (update_swap (finish worked (take_task (post_push (post_check task start)))))

silent-work : work silent task ≡ some worked
unfolding work set_user_results returned_value
silent-work = refl

-- The task when the worker is done with it and Lua returned a string.
abbrev said : LuaTask
said = record task {
  retbuf = record blank { arrbuf = 104 ∷ 105 ∷ 0 ∷ replicate 126 0; cp_len = 2 };
  ok = true;
}

-- Posting, running and resuming, one after the other.
whole_run : Reachable 10000 (task ∷ []) resumed_state
unfolding start post_check post_push take_task finish update_swap update_next
whole_run =
    after
      (after
        (after (after (after (after started (checking task refl)) pushing) (taking refl))
          (finishing silent task worked refl silent-work))
        (swapping refl refl))
      (resuming true refl)

order_example : IsOrdered 10000 (task ∷ []) resumed_state
order_example = Reachable-IsOrdered 10000 (omega arith) whole_run

-- A task is about to be queued, another one waits.
abbrev two_posted : System
two_posted = post_check task (post_push (post_check task start))
