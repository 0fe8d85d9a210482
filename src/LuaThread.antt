-- ===== src/LuaThread.antt =====
-- LuaThread.cpp: the tasks of a worker thread. A task carries Lua code to the worker and the result
-- back. The interpreter is not modelled: an `Outcome` says what running the code did.
pub mod Result
pub mod Kept
pub mod Steps
pub mod Order
pub mod Drain
mod Tests
use event_server.Base.{
  ℕ, ◌+◌, ◌%◌, ◌^◌, Bool, true, false, Option, none, some, List, [], ◌∷◌, ◌++◌, leb, ◌==◌,
  if◌then◌else◌, add_size, length,
}
use event_server.Base.Memory.{◌>>=◌, load}
use event_server.FastBuf
use event_server.FastBuf.{FastBuf, grow, poke, setcplen, contents}

-- `FastBufAlloc<char, 128>`
abbrev pub cache : ℕ
cache = 128

-- `co` and `main` are handles of Lua states; `none` is a null pointer, and for `ref` the -1.
pub record LuaTask : Type 0 where
  pub main : Option ℕ
  pub cmdbuf : FastBuf
  pub retbuf : FastBuf
  pub co : Option ℕ
  pub time : ℕ
  pub ref : Option ℕ
  pub ok : Bool
  pub user_ret : Bool

-- What running the code did: the strings that it handed to `SetUserResult`, in their order, the
-- status of loading and calling it, and the string on top of the stack, if one is there.
pub record Outcome : Type 0 where
  pub user_results : List (List ℕ)
  pub status : ℕ
  pub top : Option (List ℕ)

-- The task that `PostTask` makes; `fresh` is what `lua_ref` returns, `raw` the flag that `new`
-- leaves uninitialised.
unfoldable pub new_task : List ℕ → ℕ → Option ℕ → Option ℕ → ℕ → ℕ → Bool → Option LuaTask
new_task code size co main tick fresh raw = do
  grown ← grow cache (add_size size 1) (FastBuf.empty cache)
  src ← load 0 size code
  copied ← poke cache 0 src grown
  cmdbuf ← setcplen cache size copied
  some (record {
    main = main;
    cmdbuf = cmdbuf;
    retbuf = FastBuf.empty cache;
    co = co;
    time = tick % 2 ^ 32;
    ref = elim co [ none ↦ none | some c ↦ some fresh ];
    ok = false;
    user_ret = raw;
  })

-- `__SetUserResult` on the task that runs.
unfoldable pub set_user_result : List ℕ → LuaTask → Option LuaTask
set_user_result code t = do
  grown ← grow cache (length code) t.retbuf
  copied ← poke cache 0 code grown
  some (record t { retbuf = copied; user_ret = true })

unfoldable pub set_user_results : List (List ℕ) → LuaTask → Option LuaTask
set_user_results [] t = some t
set_user_results (code ∷ codes) t = do t' ← set_user_result code t; set_user_results codes t'

-- The string from the top of the stack into `retbuf`.
unfoldable pub return_string : List ℕ → LuaTask → Option LuaTask
return_string text t = do
  grown ← grow cache (add_size (length text) 1) t.retbuf
  copied ← poke cache 0 text grown
  ended ← poke cache (length text) (0 ∷ []) copied
  retbuf ← setcplen cache (length text) ended
  some (record t { retbuf = retbuf })

-- After a call without an error, a task with a coroutine takes the string on top of the stack.
unfoldable pub returned_value : Option (List ℕ) → LuaTask → Option LuaTask
returned_value top t = elim t.co [
  | none ↦ some (record t { ok = true })
  | some c ↦ elim top [
    | none ↦ some (record t { ok = true })
    | some text ↦ return_string text (record t { ok = true })
  ]
]

-- The part of `WorkProc` that runs one task. On an error, `luaL_checklstring` wants a string.
unfoldable pub work : Outcome → LuaTask → Option LuaTask
work o t = do
  t' ← set_user_results o.user_results (record t { user_ret = false })
  if t'.user_ret
      then some (record t' { ok = false })
      else if o.status == 0
      then returned_value o.top t'
      else (do text ← o.top; t'' ← return_string text t'; some (record t'' { ok = false }))

-- One worker with the manager's list of results, as the main thread and the worker share them.
-- `posting` is the task that `PostTask` has made after its test of the size and not yet queued, `now`
-- the one that `WorkProc` runs, `handed` what `Update` has taken over, `resumed` what it has done:
-- the coroutine, if it was resumed, and the two values that it was resumed with.
pub record System : Type 0 where
  pub max_tasks : ℕ
  pub posting : Option LuaTask
  pub tasks : List LuaTask
  pub now : Option LuaTask
  pub pools_ret : List LuaTask
  pub handed : List LuaTask
  pub resumed : List (Option ℕ × Bool × Bool × List ℕ)

unfoldable pub start : System
start = record {
  max_tasks = 10000;
  posting = none;
  tasks = [];
  now = none;
  pools_ret = [];
  handed = [];
  resumed = [];
}

-- The first half of `PostTask`: the size is read under the lock, the lock given back.
unfoldable pub post_check : LuaTask → System → System
post_check t s = if leb s.max_tasks (length s.tasks) then s else record s { posting = some t }

-- `SetMaxTask`, without its result.
unfoldable pub set_max_task : ℕ → System → System
set_max_task n s = record s { max_tasks = n }

-- The second half.
unfoldable pub post_push : System → System
post_push s = elim s.posting [
  | none ↦ s
  | some t ↦ record s { posting = none; tasks = s.tasks ++ t ∷ [] }
]

-- `WorkProc` takes the next task under the lock.
unfoldable pub take_task : System → System
take_task s = elim s.tasks [ [] ↦ s | t ∷ ts ↦ record s { tasks = ts; now = some t } ]

-- `WorkProc` is done with the task: `PostTaskReturn`, or `delete`.
unfoldable pub finish : LuaTask → System → System
finish t s = elim t.co [
  | none ↦ record s { now = none }
  | some c ↦ record s { now = none; pools_ret = s.pools_ret ++ t ∷ [] }
]

-- `Update` swaps the lists under the lock.
unfoldable pub update_swap : System → System
update_swap s = record s { pools_ret = []; handed = s.pools_ret }

-- One round of its loop; `yielded` is `lua_status(co) == LUA_YIELD`.
unfoldable pub update_next : Bool → System → System
update_next yielded s = elim s.handed [
  | [] ↦ s
  | t ∷ ts ↦ record s {
    handed = ts;
    resumed = s.resumed ++ (t.co, yielded, t.ok, contents cache t.retbuf) ∷ [];
  }
]
