-- ===== src/Archive/Serial.antt =====
-- The overloads of `CIArchive::Serial`. Each takes the variable's value and returns the new one
-- beside the archive; a text is the memory that its pointer points to.
use event_server.Base.{
  ℕ, ◌%◌, Bool, Option, none, some, List, ltb, ◌==◌, if◌then◌else◌, replicate, size_of_int, int_le,
  int_half, int_mod,
}
use event_server.Base.Memory.{◌>>=◌, store}
use event_server.MemFile
use event_server.MemFile.{Reply, done, minus_one}
use event_server.Archive.{
  Archive, sm_read, sm_write, short_swap, long_swap, long_long_swap, through, fetch, emit,
}

-- `if (ret > 0) l = f(v);`
unfoldable pub if_read : ℕ → (ℕ → ℕ) → Option ℕ → ℕ
if_read l f none = l
if_read l f (some v) = f v

-- `Serial(int&)`, and on patterns `Serial(LXZuint32&)` and `Serial(float&)`, whose union has the
-- float in the low four bytes. The value that `Long_Swap(v)` returns before a write is dropped.
unfoldable pub serial_int : ℕ → Archive → Option (ℕ × Archive)
serial_int l a = elim a.mode [
  | sm_read ↦ do (v, a') ← fetch 4 a; some (if_read l (through long_swap a) v, a')
  | sm_write ↦ do a' ← emit 4 l a; some (l, a')
]

-- `Serial(uiboolean&)`: any number is written, and only 1 is read back as `uitrue`.
unfoldable pub serial_uiboolean : ℕ → Archive → Option (ℕ × Archive)
serial_uiboolean l a = elim a.mode [
  | sm_read ↦ do
    (v, a') ← fetch 4 a
    some (if_read l (λ w. if through long_swap a w == 1 then 1 else 0) v, a')
  | sm_write ↦ do a' ← emit 4 l a; some (l, a')
]

-- `Serial(bool&)`
unfoldable pub serial_bool : Bool → Archive → Option (Bool × Archive)
serial_bool l a = elim a.mode [
  | sm_read ↦ do
    (v, a') ← fetch 4 a
    some (elim v [ none ↦ l | some w ↦ through long_swap a w == 1 ], a')
  | sm_write ↦ do a' ← emit 4 (if l then 1 else 0) a; some (l, a')
]

-- An `int` as a `long`.
abbrev pub long_of_int : ℕ → ℕ
long_of_int l = size_of_int (l % int_mod)

-- `Serial(long&)`: eight bytes, and the value read goes through the `int` of `Long_Swap`.
unfoldable pub serial_long : ℕ → Archive → Option (ℕ × Archive)
serial_long l a = elim a.mode [
  | sm_read ↦ do
    (v, a') ← fetch 8 a
    some (if_read l (λ w. long_of_int (through long_swap a (w % int_mod))) v, a')
  | sm_write ↦ do a' ← emit 8 l a; some (l, a')
]

-- `Serial(LXZsint8&)` and `Serial(LXZuint8&)`
unfoldable pub serial_uint8 : ℕ → Archive → Option (ℕ × Archive)
serial_uint8 l a = elim a.mode [
  | sm_read ↦ do (v, a') ← fetch 1 a; some (if_read l (λ w. w) v, a')
  | sm_write ↦ do a' ← emit 1 l a; some (l, a')
]

-- `Serial(LXZsint16&)` and `Serial(LXZuint16&)`
unfoldable pub serial_uint16 : ℕ → Archive → Option (ℕ × Archive)
serial_uint16 l a = elim a.mode [
  | sm_read ↦ do (v, a') ← fetch 2 a; some (if_read l (through short_swap a) v, a')
  | sm_write ↦ do a' ← emit 2 l a; some (l, a')
]

-- `Serial(LXZuint64&)`
unfoldable pub serial_uint64 : ℕ → Archive → Option (ℕ × Archive)
serial_uint64 l a = elim a.mode [
  | sm_read ↦ do (v, a') ← fetch 8 a; some (if_read l (through long_long_swap a) v, a')
  | sm_write ↦ do a' ← emit 8 l a; some (l, a')
]

-- A read into the memory `str`, of an `int` size that becomes a `size_t`.
unfoldable pub read_into : List ℕ → ℕ → Archive → Option (List ℕ × Archive)
read_into str len a = do
  (reply, s) ← MemFile.read (size_of_int len) a.stream
  str' ← elim reply [ done bytes ↦ store 0 bytes str | minus_one ↦ some str ]
  some (str', record a { stream = s })

-- A write of an `int` size from the memory `str`.
unfoldable pub write_from : List ℕ → ℕ → Archive → Option Archive
write_from str len a = do
  (_, s) ← MemFile.write str (size_of_int len) a.stream
  some (record a { stream = s })

-- `Serial(char* str, int len)`
unfoldable pub serial_chars : List ℕ → ℕ → Archive → Option (List ℕ × Archive)
serial_chars str len a = elim a.mode [
  | sm_read ↦ read_into str len a
  | sm_write ↦ do a' ← write_from str len a; some (str, a')
]

-- `Serial(char* str, int len, int nMaxBuf)`: the text with its length before it.
unfoldable pub serial_buf : List ℕ → ℕ → ℕ → Archive → Option (List ℕ × Archive)
serial_buf str len max_buf a = elim a.mode [
  | sm_read ↦ do
    zeroed ← store 0 (replicate (if ltb max_buf int_half then max_buf else 0) 0) str
    (l, a') ← serial_int 0 a
    if int_le l max_buf then read_into zeroed l a' else some (zeroed, a')
  | sm_write ↦ do (_, a') ← serial_int len a; a'' ← write_from str len a'; some (str, a'')
]

-- `Write(const char* buf, int len)`
unfoldable pub write : List ℕ → ℕ → Archive → Option Archive
write buf len a = elim a.mode [ sm_read ↦ some a | sm_write ↦ write_from buf len a ]
