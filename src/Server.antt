-- ===== src/Server.antt =====
-- EventServer.cpp: helpers of the server that Lua code calls.
pub mod Whole
pub mod Received
mod Helpers
mod Tests
use event_server.Base.{
  ℕ, zero, suc, ◌+◌, ◌-◌, ◌*◌, ◌/◌, ◌%◌, ◌^◌, Bool, true, false, ◌&&◌, Option, none, some, List, [],
  ◌∷◌, ◌++◌, ltb, leb, if◌then◌else◌, get_elem?, length, take, replicate, bit_xor, int_half,
  int_mod, size_of_int,
}
use event_server.Base.Memory.{◌>>=◌, store}
use event_server.Archive.{Archive, Mode, sm_write, set_pos}
use event_server.Archive
use event_server.Archive.Serial.{write}
use event_server.WebSocket.{msg_size}

-- The size of the character that begins with `a`.
unfoldable pub char_size : ℕ → ℕ
char_size a =
    if ltb a 0x80
    then 1
    else if leb 192 a && leb a 223
    then 2
    else if leb 224 a && leb a 239
    then 3
    else if leb 240 a && leb a 247
    then 4
    else if leb 248 a && leb a 251
    then 5
    else 6

-- The sum of two `int`s that are not negative. C leaves undefined what does not fit.
unfoldable pub int_sum : ℕ → ℕ → Option ℕ
int_sum a b = if ltb (a + b) int_half then some (a + b) else none

-- The loop of `set_char_zero`, on fuel: each round but the last moves `offset` on. `len` is not
-- negative.
unfoldable pub skip_chars : ℕ → ℕ → ℕ → List ℕ → Option (ℕ × List ℕ)
skip_chars zero offset len buf = none
skip_chars (suc fuel) offset len buf =
    if ltb offset len
    then (do
      a ← get_elem? buf offset
      after ← int_sum offset (char_size a)
      if ltb len after
          then (do buf1 ← store offset (replicate (len - offset) 0) buf; some (offset, buf1))
          else skip_chars fuel after len buf)
    else some (offset, buf)

-- `len` is the `int` `nLen`.
unfoldable pub set_char_zero : List ℕ → ℕ → Option (ℕ × List ℕ)
set_char_zero buf len = if ltb len int_half then skip_chars (suc len) 0 len buf else some (0, buf)

-- `buff` has a zero behind the text; `count` becomes an `int`, and the result a `size_t`.
unfoldable pub lua_set_char_zero : List ℕ → Option (List ℕ)
lua_set_char_zero str = do
  (size, buff) ← set_char_zero (str ++ 0 ∷ []) (length str % int_mod)
  some (take (size_of_int size) buff)

-- `CLXZMessage::setMode`: `Initial` with the message's own stream.
unfoldable pub set_message_mode : Mode → Archive → Archive
set_message_mode mode msg = Archive.initial msg.stream mode msg

-- The loop of `read_cb` and `read_cb2`. `chunks` are what `bufferevent_read` puts into `line` before it
-- returns 0 or less.
unfoldable pub receive : List (List ℕ) → Archive → Option Archive
receive [] msg = some msg
receive (line ∷ more) msg = do msg1 ← write line (length line) msg; receive more msg1

-- `int old_pos = msg->getPos()`
abbrev pub old_pos : Archive → ℕ
old_pos msg = msg.stream.cur_pos % int_mod

-- `read_cb` up to the call of Lua.
unfoldable pub read_cb : List (List ℕ) → Archive → Option Archive
read_cb chunks msg = do
  msg1 ← receive chunks (set_pos (size_of_int (msg_size msg)) (set_message_mode sm_write msg))
  some (set_pos (size_of_int (old_pos msg)) (set_message_mode msg.mode msg1))

-- `read_cb2` up to the call of Lua: the position is not set.
unfoldable pub read_cb2 : List (List ℕ) → Archive → Option Archive
read_cb2 chunks msg = do
  msg1 ← receive chunks (set_message_mode sm_write msg)
  some (set_pos (size_of_int (old_pos msg)) (set_message_mode msg.mode msg1))
