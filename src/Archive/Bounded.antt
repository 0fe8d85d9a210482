-- ===== src/Archive/Bounded.antt =====
-- `SerialStr`: a C string with its length before it, read into memory of the caller's.
use event_server.Base.{
  ℕ, ◌≤◌, ◌<◌, ◌≡◌, ap, ◌∙◌, true, Option, none, some, List, [], ◌∷◌, ◌++◌, arith, length, le_bytes,
  int_le, int_half, if◌then◌else◌, size_of_int, not,
}
use event_server.Base.Memory.{◌>>=◌, store, store_outside}
use event_server.Archive.{Archive, sm_read, sm_write}
use event_server.Archive.Serial.{serial_int, read_into, write_from}
use event_server.Archive.Reads.{Reads, serial_int-Reads}
use event_server.Archive.Strings.{strlen}

-- The parameter `len` is the size of the memory; in the other mode it is hidden by the length of `str`.
unfoldable pub serial_str : List ℕ → ℕ → Archive → Option (List ℕ × Archive)
serial_str str len a = elim a.mode [
  | sm_read ↦ do
    (l, a1) ← serial_int 0 a
    (str1, a2) ← if not (int_le len l) then read_into str l a1 else some (str, a1)
    str2 ← store (size_of_int l) (0 ∷ []) str1
    some (str2, a2)
  | sm_write ↦ do n ← strlen str; (_, a1) ← serial_int n a; a2 ← write_from str n a1; some (str, a2)
]

str_run :
    (str : List ℕ) (len l : ℕ) (a : Archive) {b : Archive}
    → a.mode ≡ sm_read
    → serial_int 0 a ≡ some (l, b)
    → len ≤ l
    → l < int_half
    → store (size_of_int l) (0 ∷ []) str ≡ none
    → serial_str str len a ≡ none
unfolding serial_str
str_run str len l a m e h k f = ground (arith, e, f, beyond)
  where
    beyond : int_le len l ≡ true
    beyond = ground arith

-- Where the length that lies ahead in a well-formed archive, which does not swap, is that of the
-- caller's memory or more, `SerialStr` copies nothing and still puts the terminator, outside the
-- memory.
pub serial_str-overruns :
    (str : List ℕ) (l : ℕ) (a : Archive) (t : List ℕ) {bytes : List ℕ}
    → Reads a bytes (le_bytes 4 l ++ t)
    → length str ≤ l
    → l < int_half
    → serial_str str (length str) a ≡ none
serial_str-overruns str l a t r h k =
    let (e, r') = serial_int-Reads 0 l a t (omega arith) r in
    str_run str (length str) l a r.mode e h k
      (ap (λ i. store i (0 ∷ []) str) (ground arith) ∙ store_outside l (0 ∷ []) str (omega arith))
