-- ===== src/Notify.antt =====
-- EventServer.cpp: `Notify`, by which any thread hands a message to the main thread, and
-- `notify_timer_cb`, which tells Lua of those that have come. The lock makes `push_back` and `swap` steps
-- of their own; all else touches nothing that is shared.
pub mod Steps
pub mod Order
mod Tests
use event_server.Base.{
  ℕ, ◌+◌, ◌%◌, Option, some, List, [], ◌∷◌, ◌++◌, ltb, ◌==◌, if◌then◌else◌, int_mod,
}
use event_server.Base.Memory.{◌>>=◌}
use event_server.FastBuf
use event_server.FastBuf.{FastBuf}
use event_server.VVector
use event_server.VVector.{VVector, empty, push_back}
use event_server.Archive.{Archive}

-- A message in the queue, with its `m_u4SysData`.
pub record Notice : Type 0 where
  pub message : Archive
  pub system_data : ℕ

-- The copy constructor of `CLXZMessage`: every field as it is, and the buffer by its own constructor.
-- `m_pISerial` of the copy still points to the stream of the original until `setMode` is called; it is
-- not modelled here.
unfoldable pub copy_message : FastBuf → Archive → Option Archive
copy_message raw msg = do
  fast_buf ← FastBuf.copy raw msg.stream.fast_buf
  some (record msg { stream = record msg.stream { fast_buf = fast_buf } })

-- `queue` is `_vvMsg`; `taken` and `place` are `vvMessage` and `i` of the callback that runs, or of the
-- last one; `told` is what Lua has been called with under CMD_EVENT_NOTIFY.
pub record Notices : Type 0 where
  pub queue : VVector Notice
  pub taken : VVector Notice
  pub place : ℕ
  pub told : List Notice

-- What happens: a call of `Notify`, with what the memory of the copy held before; the timer, whose
-- callback does not begin again before it has ended; one round of the callback's loop.
pub data Event : Type 0 where
  notified : (raw : FastBuf) (code : ℕ) (msg : Archive) → Event
  timer next_round : Event

-- `fresh n` is the memory for `n` pointers that `operator new` gives.
module _ (fresh : ℕ → List Notice) where
  unfoldable pub none_yet : Notices
  none_yet = record { queue = empty fresh; taken = empty fresh; place = 0; told = [] }

  unfoldable pub notify : FastBuf → ℕ → Archive → Notices → Option Notices
  notify raw code msg s = do
    copied ← copy_message raw msg
    queue ← push_back fresh (record { message = copied; system_data = code % int_mod }) s.queue
    some (record s { queue = queue })

  -- `notify_timer_cb` up to its loop.
  unfoldable pub notify_swap : Notices → Notices
  notify_swap s =
      let (mine, theirs) = VVector.swap (empty fresh) s.queue in
      record s { queue = theirs; taken = mine; place = 0 }

-- One round of the loop.
unfoldable pub notify_next : Notices → Option Notices
notify_next s =
    if ltb s.place (VVector.size s.taken)
    then (do
      notice ← VVector.at s.place s.taken
      some (record s { place = s.place + 1; told = s.told ++ notice ∷ [] }))
    else some s

module _ (fresh : ℕ → List Notice) where
  unfoldable pub step : Event → Notices → Option Notices
  step (notified raw code msg) s = notify fresh raw code msg s
  step timer s = some (if s.place == VVector.size s.taken then notify_swap fresh s else s)
  step next_round s = notify_next s

  unfoldable pub run : List Event → Notices → Option Notices
  run [] s = some s
  run (e ∷ events) s = do s1 ← step e s; run events s1
