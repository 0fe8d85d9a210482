-- ===== src/LuaThread/Order.antt =====
-- The order in which coroutines are resumed, and the bound on the queue.
use event_server.Base.{
  ℕ, ◌+◌, ◌≤◌, ◌≡◌, refl, sym, ap, ◌∙◌, Bool, Option, none, some, List, [], ◌∷◌, ◌++◌, arith,
  length, length-append, append-nil, append_assoc, le→leb, lt→leb, le-cases, inl, inr,
}
use event_server.LuaThread.{
  LuaTask, System, start, post_check, set_max_task, post_push, take_task, finish, update_swap,
  update_next,
}
use event_server.LuaThread.Kept.{work-Keeps}
use event_server.LuaThread.Steps.{
  Step, checking, limiting, pushing, swapping, resuming, taking, finishing, Reachable, started,
  after, queued,
}

-- The coroutine of a task, if it has one.
abbrev pub listed : Option ℕ → List ℕ
listed none = []
listed (some c) = c ∷ []

-- The coroutines that wait for the tasks of a list.
abbrev pub awaited : List LuaTask → List ℕ
awaited [] = []
awaited (t ∷ ts) = listed t.co ++ awaited ts

-- The coroutines that `Update` is done with.
abbrev pub served : List (Option ℕ × Bool × Bool × List ℕ) → List ℕ
served [] = []
served (r ∷ rs) = listed r.0 ++ served rs

awaited-append : (xs ys : List LuaTask) → awaited (xs ++ ys) ≡ awaited xs ++ awaited ys
awaited-append [] ys = refl
awaited-append (t ∷ ts) ys =
    ap (λ l. listed t.co ++ l) (awaited-append ts ys)
    ∙ sym (append_assoc (listed t.co) (awaited ts) _)

served-append :
    (xs ys : List (Option ℕ × Bool × Bool × List ℕ)) → served (xs ++ ys) ≡ served xs ++ served ys
served-append [] ys = refl
served-append (r ∷ rs) ys =
    ap (λ l. listed r.0 ++ l) (served-append rs ys) ∙ sym (append_assoc (listed r.0) (served rs) _)

-- The tasks on their way, the one that comes first in front.
abbrev pub on_the_way : System → List LuaTask
on_the_way s = s.handed ++ (s.pools_ret ++ (queued s.now ++ s.tasks))

module _ (most : ℕ) where
  -- What every reachable state satisfies, with the tasks that were queued so far.
  pub record IsOrdered (posted : List LuaTask) (s : System) : Type 0 where
    pub order : awaited posted ≡ served s.resumed ++ awaited (on_the_way s)
    pub bound : length s.tasks + length (queued s.posting) ≤ most
    pub limit : s.max_tasks ≤ most

  start-IsOrdered : 10000 ≤ most → IsOrdered [] start
  unfolding start
  start-IsOrdered h = record { order = refl; bound = omega arith; limit = h }

  -- What a step owes: the coroutines that it queues come last.
  advance :
      (posted new : List LuaTask) (s s' : System)
      → IsOrdered posted s
      → served s'.resumed ++ awaited (on_the_way s')
        ≡ (served s.resumed ++ awaited (on_the_way s)) ++ awaited new
      → length s'.tasks + length (queued s'.posting) ≤ most
      → s'.max_tasks ≤ most
      → IsOrdered (posted ++ new) s'
  advance posted new s s' i e b l = record {
    order = awaited-append posted new ∙ ap (λ l. l ++ awaited new) i.order ∙ sym e;
    bound = b;
    limit = l;
  }

  -- A step that queues nothing.
  steady :
      (posted : List LuaTask) (s s' : System)
      → IsOrdered posted s
      → served s'.resumed ++ awaited (on_the_way s') ≡ served s.resumed ++ awaited (on_the_way s)
      → length s'.tasks + length (queued s'.posting) ≤ most
      → s'.max_tasks ≤ most
      → IsOrdered (posted ++ []) s'
  steady posted s s' i e b l = advance posted [] s s' i (e ∙ sym (append-nil _)) b l

  check-IsOrdered :
      (posted : List LuaTask) (t : LuaTask) (s : System)
      → s.posting ≡ none
      → IsOrdered posted s
      → IsOrdered (posted ++ []) (post_check t s)
  unfolding post_check
  check-IsOrdered posted t s e i = elim (le-cases s.max_tasks (length s.tasks)) [
    | inl full ↦ rw (le→leb _ _ full) (steady posted s s i refl i.bound i.limit)
    | inr room ↦ rw (lt→leb _ _ room) (
        steady posted s (record s { posting = some t }) i refl (omega (arith, room, i.limit))
          i.limit)
  ]

  swap-IsOrdered :
      (posted : List LuaTask) (s : System)
      → s.handed ≡ []
      → IsOrdered posted s
      → IsOrdered (posted ++ []) (update_swap s)
  unfolding update_swap
  swap-IsOrdered posted s e i =
      steady posted s (record s { pools_ret = []; handed = s.pools_ret }) i (rw e refl) i.bound
        i.limit

  -- The steps that depend on a part of the state, by the cases of that part.
  module _ (posted : List LuaTask) (mx : ℕ) (rets : List LuaTask)
      (res : List (Option ℕ × Bool × Bool × List ℕ)) where
    abbrev state : Option LuaTask → List LuaTask → Option LuaTask → List LuaTask → System
    state p ts now given = record {
      max_tasks = mx;
      posting = p;
      tasks = ts;
      now = now;
      pools_ret = rets;
      handed = given;
      resumed = res;
    }

    push_cases :
        (p : Option LuaTask) (ts : List LuaTask) (now : Option LuaTask) (given : List LuaTask)
        → IsOrdered posted (state p ts now given)
        → IsOrdered (posted ++ queued p) (post_push (state p ts now given))
    unfolding post_push
    push_cases none ts now given i = steady posted _ _ i refl i.bound i.limit
    push_cases (some t) ts now given i =
        advance posted (t ∷ []) _ _ i (simp (awaited-append, append_assoc))
          (omega (arith, i.bound, length-append ts (t ∷ []))) i.limit

    next_cases :
        (yielded : Bool) (p : Option LuaTask) (ts : List LuaTask) (now : Option LuaTask)
        (given : List LuaTask)
        → IsOrdered posted (state p ts now given)
        → IsOrdered (posted ++ []) (update_next yielded (state p ts now given))
    unfolding update_next
    next_cases yielded p ts now [] i = steady posted _ _ i refl i.bound i.limit
    next_cases yielded p ts now (t ∷ given) i =
        steady posted _ _ i (simp (awaited-append, served-append, append_assoc, append-nil)) i.bound
          i.limit

    take_cases :
        (p : Option LuaTask) (ts : List LuaTask) (now : Option LuaTask) (given : List LuaTask)
        → now ≡ none
        → IsOrdered posted (state p ts now given)
        → IsOrdered (posted ++ []) (take_task (state p ts now given))
    unfolding take_task
    take_cases p [] now given e i = steady posted _ _ i refl i.bound i.limit
    take_cases p (t ∷ ts) now given e i =
        steady posted _ _ i (rw e refl) (omega (arith, i.bound)) i.limit

    finish_cases :
        (p : Option LuaTask) (ts : List LuaTask) (now : Option LuaTask) (given : List LuaTask)
        (t t' : LuaTask) (co : Option ℕ)
        → now ≡ some t
        → t'.co ≡ co
        → t.co ≡ co
        → IsOrdered posted (state p ts now given)
        → IsOrdered (posted ++ []) (finish t' (state p ts now given))
    unfolding finish
    finish_cases p ts now given t t' none h e f i =
        rw e (steady posted _ _ i (simp (awaited-append, h, f)) i.bound i.limit)
    finish_cases p ts now given t t' (some c) h e f i =
        rw e (steady posted _ _ i (simp (awaited-append, append_assoc, h, f)) i.bound i.limit)

  Step-IsOrdered :
      (posted new : List LuaTask) (s s' : System)
      → IsOrdered posted s
      → Step most s new s'
      → IsOrdered (posted ++ new) s'
  unfolding set_max_task
  Step-IsOrdered posted _ s _ i (limiting n h e) =
      steady posted s (set_max_task n s) i refl i.bound h
  Step-IsOrdered posted _ s _ i (checking t e) = check-IsOrdered posted t s e i
  Step-IsOrdered posted _ s _ i pushing =
      push_cases posted s.max_tasks s.pools_ret s.resumed s.posting s.tasks s.now s.handed i
  Step-IsOrdered posted _ s _ i (swapping e h) = swap-IsOrdered posted s h i
  Step-IsOrdered posted _ s _ i (resuming yielded _) =
      next_cases posted s.max_tasks s.pools_ret s.resumed yielded s.posting s.tasks s.now s.handed i
  Step-IsOrdered posted _ s _ i (taking e) =
      take_cases posted s.max_tasks s.pools_ret s.resumed s.posting s.tasks s.now s.handed e i
  Step-IsOrdered posted _ s _ i (finishing o t t' e w) =
      finish_cases posted s.max_tasks s.pools_ret s.resumed s.posting s.tasks s.now s.handed t t'
        t.co e (work-Keeps o t t' w) refl i

  -- In every reachable state, for any interleaving of the two threads, the coroutines that wait for the
  -- tasks queued so far are, in the order of the queueing: those that `Update` is done with, then those
  -- whose tasks are on the way. None is lost, served twice or overtaken. And the queue, together with a
  -- task that `PostTask` is about to put there, is never longer than the largest number that the limit
  -- was ever set to, 10000 at the start. `PostTask` and `SetMaxTask` may be called by the coroutines that
  -- `Update` resumes.
  pub Reachable-IsOrdered :
      {posted : List LuaTask} {s : System}
      → 10000 ≤ most
      → Reachable most posted s
      → IsOrdered posted s
  Reachable-IsOrdered h started = start-IsOrdered h
  Reachable-IsOrdered h (after r st) = Step-IsOrdered _ _ _ _ (Reachable-IsOrdered h r) st
