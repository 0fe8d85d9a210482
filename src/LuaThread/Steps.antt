-- ===== src/LuaThread/Steps.antt =====
-- How the main thread and the worker interleave: every step that takes a lock, in any order that the
-- control flow of the two threads allows. One main thread posts and updates.
use event_server.Base.{ℕ, ◌≤◌, ◌≡◌, Bool, Option, none, some, List, [], ◌∷◌, ◌++◌}
use event_server.LuaThread.{
  LuaTask, Outcome, System, start, work, post_check, post_push, set_max_task, take_task, finish,
  update_swap, update_next,
}

-- What the second half of `PostTask` puts into the queue.
abbrev pub queued : Option LuaTask → List LuaTask
queued none = []
queued (some t) = t ∷ []

-- `most` is a number that no call of `SetMaxTask` goes beyond.
module _ (most : ℕ) where
  -- The list is what the step puts into the queue.
  pub data Step (s : System) : List LuaTask → System → Type 0 where
    -- The main thread: `PostTask` in two halves, `Update` in rounds. A coroutine that a round resumes may
    -- call `PostTask` and `SetMaxTask`, so that these come between the rounds as well.
    checking : (t : LuaTask) → s.posting ≡ none → Step s [] (post_check t s)
    pushing : Step s (queued s.posting) (post_push s)
    limiting : (n : ℕ) → n ≤ most → s.posting ≡ none → Step s [] (set_max_task n s)
    swapping : s.posting ≡ none → s.handed ≡ [] → Step s [] (update_swap s)
    resuming : (yielded : Bool) → s.posting ≡ none → Step s [] (update_next yielded s)
    -- The worker.
    taking : s.now ≡ none → Step s [] (take_task s)
    finishing :
        (o : Outcome) (t t' : LuaTask)
        → s.now ≡ some t
        → work o t ≡ some t'
        → Step s [] (finish t' s)

  -- The states of the program, each with the tasks that were put into the queue, the latest last.
  pub data Reachable : List LuaTask → System → Type 0 where
    started : Reachable [] start
    after :
        {posted new : List LuaTask} {s s' : System}
        → Reachable posted s
        → Step s new s'
        → Reachable (posted ++ new) s'
