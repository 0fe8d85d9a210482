-- ===== src/Server/Helpers.antt =====
-- EventServer.cpp: the arithmetic on 64-bit numbers in texts, and the reading of a number from bytes.
use event_server.Base.{
  ℕ, ◌+◌, ◌-◌, ◌*◌, ◌/◌, ◌%◌, ◌^◌, bit_and, bit_or, bit_xor, Bool, Option, none, some, List, [],
  ◌∷◌, ltb, leb, ◌==◌, if◌then◌else◌, length,
}
use event_server.Base.Memory.{◌>>=◌}
use event_server.MemFile
use event_server.Archive.{Archive, sm_read, fresh}
use event_server.Archive.Serial.{serial_int, write}
use event_server.Config.{same_text}
use event_server.Config.Texts.{first_char}
use event_server.Server.{set_message_mode}

-- What `lua_evhttp_int64_op` pushes: the 64 bits that are printed with `%lld`, a boolean, or nothing.
pub data Pushed : Type 0 where
  pushed_int64 : ℕ → Pushed
  pushed_boolean : Bool → Pushed
  pushed_nothing : Pushed

abbrev wrap64 : ℕ → ℕ
wrap64 n = n % 2 ^ 64

-- The comparisons, in the order of the tests.
unfoldable pub int64_compare : List ℕ → ℕ → ℕ → Pushed
int64_compare op src dst =
    if first_char op == 60
    then pushed_boolean (ltb src dst)
    else if same_text op (60 ∷ 61 ∷ [])
    then pushed_boolean (leb src dst)
    else if first_char op == 62
    then pushed_boolean (ltb dst src)
    else if same_text op (62 ∷ 61 ∷ [])
    then pushed_boolean (leb dst src)
    else if same_text op (61 ∷ 61 ∷ [])
    then pushed_boolean (src == dst)
    else pushed_nothing

-- `src` and `dst` are what `atoll` reads from the texts, as unsigned numbers of 64 bits. A division by
-- 0 stops the program.
unfoldable pub int64_op : List ℕ → ℕ → ℕ → Option Pushed
int64_op op src dst =
    let c : ℕ = first_char op in
    if c == 43
    then some (pushed_int64 (wrap64 (src + dst)))
    else if c == 45
    then some (pushed_int64 (wrap64 (src + 2 ^ 64 - dst)))
    else if c == 42
    then some (pushed_int64 (wrap64 (src * dst)))
    else if c == 47
    then (if dst == 0 then none else some (pushed_int64 (src / dst)))
    else if c == 37
    then (if dst == 0 then none else some (pushed_int64 (src % dst)))
    else if c == 124
    then some (pushed_int64 (bit_or src dst))
    else if c == 94
    then some (pushed_int64 (bit_xor src dst))
    else if c == 38
    then some (pushed_int64 (bit_and src dst))
    else if c == 126
    then some (pushed_int64 (2 ^ 64 - 1 - src))
    else some (int64_compare op src dst)

-- The two `Serial(d)` of `to_little_endian`, on a variable that is 0.
unfoldable pub read_numbers : ℕ → Archive → Option (Option ℕ)
read_numbers count msg =
    if count == 4
    then (do (d, _) ← serial_int 0 msg; some (some d))
    else if count == 8
    then (do
      (d, msg1) ← serial_int 0 msg
      (dd, _) ← serial_int 0 msg1
      some (some (dd * 2 ^ 32 + d)))
    else some none

-- The number that Lua gets, if any. A new message is in read mode.
unfoldable pub to_little_endian : List ℕ → Option (Option ℕ)
to_little_endian v = if length v == 0 then some (some 0) else (do
  msg ← write v (length v) (fresh MemFile.empty)
  read_numbers (length v) (set_message_mode sm_read msg))
