-- ===== src/LuaThread/Drain.antt =====
-- That tasks are finished: from every state of the program, the two threads have steps to take until
-- nothing is left to do.
use event_server.Base.{ℕ, ◌≡◌, Bool, Option, none, some, List, [], ◌∷◌, ◌++◌}
use event_server.FastBuf.{contents}
use event_server.LuaThread.{LuaTask, Outcome, System, cache, work}

-- Nothing is on its way.
pub record IsIdle (s : System) : Type 0 where
  pub none_posting : s.posting ≡ none
  pub no_tasks : s.tasks ≡ []
  pub none_now : s.now ≡ none
  pub none_returned : s.pools_ret ≡ []
  pub none_handed : s.handed ≡ []

-- Each task of the first list has an outcome with which running it comes to its end, as in the second.
pub data Worked : List LuaTask → List LuaTask → Type 0 where
  none_worked : Worked [] []
  one_worked :
      (o : Outcome) (t t' : LuaTask) (ts fs : List LuaTask)
      → work o t ≡ some t'
      → Worked ts fs
      → Worked (t ∷ ts) (t' ∷ fs)

-- The tasks that go back to the main thread are those with a coroutine.
abbrev pub given_back : Option ℕ → LuaTask → List LuaTask
given_back none t = []
given_back (some co) t = t ∷ []

abbrev pub returned : List LuaTask → List LuaTask
returned [] = []
returned (t ∷ ts) = given_back t.co t ++ returned ts

-- What `Update` does for these tasks; `yields` says which coroutines wait.
abbrev pub results : (LuaTask → Bool) → List LuaTask → List (Option ℕ × Bool × Bool × List ℕ)
results yields [] = []
results yields (t ∷ ts) = (t.co, yields t, t.ok, contents cache t.retbuf) ∷ results yields ts

module _ (most : ℕ) (yields : LuaTask → Bool) (mx : ℕ) where
  abbrev system :
      Option LuaTask
      → List LuaTask
      → Option LuaTask
      → List LuaTask
      → List LuaTask
      → List (Option ℕ × Bool × Bool × List ℕ)
      → System
  system posting tasks now rets given res = record {
    max_tasks = mx;
    posting = posting;
    tasks = tasks;
    now = now;
    pools_ret = rets;
    handed = given;
    resumed = res;
  }
