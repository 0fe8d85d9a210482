-- ===== src/Message/Ids.antt =====
-- `msg_id`, the counter that messages take their identifier from.
use event_server.Base.{ℕ, ◌+◌, ◌-◌, ◌%◌, ◌^◌, ◌<◌, ◌≡◌, arith}

-- The constructor: the identifier, `m_u4Timer`, and the counter afterwards.
unfoldable pub new_message : ℕ → ℕ × ℕ
new_message msg_id = (msg_id, (msg_id + 1) % 2 ^ 32)

-- The destructor.
unfoldable pub delete_message : ℕ → ℕ
delete_message msg_id = (msg_id + 2 ^ 32 - 1) % 2 ^ 32

-- Identifiers are not unique among live messages: of two messages made one after the other, the first
-- is deleted, and the message that is made next has the identifier of the second, which is alive. So
-- it is for every 32-bit value of the counter.
pub new_message-delete_message :
    (msg_id : ℕ)
    → msg_id < 2 ^ 32
    → (new_message (delete_message (new_message (new_message msg_id).1).1)).0
      ≡ (new_message (new_message msg_id).1).0
unfolding new_message delete_message
new_message-delete_message msg_id h = omega arith
