-- ===== src/Archive/Strings.antt =====
-- `Serial(char*&)`: a C string with its length before it, read into memory of its own.
use event_server.Base.{
  ℕ, ◌+◌, ◌%◌, ◌≤◌, ◌<◌, ◌≡◌, refl, ap, ◌∙◌, subst, Option, none, some, List, [], ◌∷◌, ◌++◌,
  append_assoc, arith, length, length-append, length-splice, splice_end, take-append_le, take_self,
  ◌==◌, if◌then◌else◌, le_bytes, length-le_bytes, size_of_int, int_mod, int_half, false, splice,
}
use event_server.Base.Memory.{◌>>=◌, store, store_inside}
use event_server.MemFile
use event_server.MemFile.{MemFile, done, minus_one}
use event_server.MemFile.Valid.{IsValid, max_file}
use event_server.Archive.{Archive, sm_read, sm_write}
use event_server.Archive.Transfer.{rewound}
use event_server.Archive.Serial.{serial_int, serial_chars, read_into}
use event_server.Archive.Sent.{Sent, Sent-trans}
use event_server.Archive.Reads.{Reads, moved, serial_int-Reads, read_ahead}
use event_server.Archive.Texts.{serial_int-Sent, serial_chars-Sent, Sent-Reads}

-- `strlen`: none where no terminator stands in the memory.
unfoldable pub strlen : List ℕ → Option ℕ
strlen [] = none
strlen (b ∷ bs) =
    let rest : Option ℕ = strlen bs in if b == 0 then some 0 else (do n ← rest; some (n + 1))

-- `new_chars n` is the memory that `new char[n]` gives.
unfoldable pub serial_string : (ℕ → List ℕ) → List ℕ → Archive → Option (List ℕ × Archive)
serial_string new_chars str a = elim a.mode [
  | sm_read ↦ do
    (len, a1) ← serial_int 0 a
    (s, a2) ← serial_chars (new_chars (size_of_int ((len + 1) % int_mod))) len a1
    s' ← store (size_of_int len) (0 ∷ []) s
    some (s', a2)
  | sm_write ↦ do
    len ← strlen str
    (_, a1) ← serial_int len a
    (_, a2) ← serial_chars str len a1
    some (str, a2)
]

-- A text that a C string can hold.
pub data NoZero : List ℕ → Type 0 where
  none_left : NoZero []
  one_more : (b : ℕ) (bs : List ℕ) → 1 ≤ b → NoZero bs → NoZero (b ∷ bs)

strlen_lem : (c rest : List ℕ) → NoZero c → strlen (c ++ 0 ∷ rest) ≡ some (length c)
unfolding strlen
strlen_lem [] rest none_left = refl
strlen_lem (b ∷ bs) rest (one_more _ _ h all) = ground (arith, strlen_lem bs rest all)

write_string_run :
    (new_chars : ℕ → List ℕ) (str : List ℕ) (n : ℕ) (a : Archive) {b c : Archive}
    → a.mode ≡ sm_write
    → strlen str ≡ some n
    → serial_int n a ≡ some (n, b)
    → serial_chars str n b ≡ some (str, c)
    → serial_string new_chars str a ≡ some (str, c)
unfolding serial_string
write_string_run new_chars str n a m e f g = ground (arith, e, f, g)

read_string_run :
    (new_chars : ℕ → List ℕ) (str : List ℕ) (n : ℕ) (a : Archive) {s s' : List ℕ} {b c : Archive}
    → a.mode ≡ sm_read
    → n + 1 < int_half
    → serial_int 0 a ≡ some (n, b)
    → serial_chars (new_chars (n + 1)) n b ≡ some (s, c)
    → store n (0 ∷ []) s ≡ some s'
    → serial_string new_chars str a ≡ some (s', c)
unfolding serial_string
read_string_run new_chars str n a {s = s} {s' = s'} {b = b} {c = c} m h e f g =
    ground (arith, e, fits, ends)
  where
    fits : serial_chars (new_chars (size_of_int ((n + 1) % int_mod))) n b ≡ some (s, c)
    fits = ap (λ k. serial_chars (new_chars k) n b) (ground arith) ∙ f

    ends : store (size_of_int n) (0 ∷ []) s ≡ some s'
    ends = ap (λ k. store k (0 ∷ []) s) (ground arith) ∙ g

chars_read_run :
    (str : List ℕ) (n : ℕ) (a : Archive) {s s' : List ℕ} {m : MemFile}
    → a.mode ≡ sm_read
    → n < int_half
    → MemFile.read n a.stream ≡ some (done s, m)
    → store 0 s str ≡ some s'
    → serial_chars str n a ≡ some (s', record a { stream = m })
unfolding serial_chars read_into
chars_read_run str n a {s = s} {m = m} e h f g = ground (arith, narrowed, g)
  where
    narrowed : MemFile.read (size_of_int n) a.stream ≡ some (done s, m)
    narrowed = ap (λ k. MemFile.read k a.stream) (ground arith) ∙ f

-- The text and a terminator fill memory of just that size.
terminated_copy :
    (c mem : List ℕ)
    → length mem ≡ length c + 1
    → (store 0 c mem ≡ some (splice 0 c mem))
      × (store (length c) (0 ∷ []) (splice 0 c mem) ≡ some (c ++ 0 ∷ []))
terminated_copy c mem h = (
  store_inside 0 c mem (omega (arith, h)),
  store_inside (length c) (0 ∷ []) (splice 0 c mem) (omega (arith, len))
      ∙ ap some (
          splice_end (length c) (0 ∷ []) (splice 0 c mem) (omega (arith, len))
          ∙ ap (λ l. l ++ 0 ∷ []) (take-append_le (length c) c _ (omega arith) ∙ take_self c)),
)
  where
    len : length (splice 0 c mem) ≡ length c + 1
    len = length-splice 0 c mem (omega (arith, h)) ∙ h

-- A C string without zeros inside, written to a well-formed archive that does not swap, within
-- `max_file`, and read back from there, comes back with its terminator, whatever `new` leaves in the
-- memory for it, if an `int` holds the size of that memory.
pub serial_string-ReadsBack :
    (new_chars : ℕ → List ℕ) (c rest old : List ℕ) (a : Archive) {bytes : List ℕ}
    → ((n : ℕ) → length (new_chars n) ≡ n)
    → NoZero c
    → IsValid a.stream bytes
    → a.mode ≡ sm_write
    → a.swapped ≡ false
    → length c + 1 < int_half
    → a.stream.cur_pos + length c + 4 ≤ max_file
    → (a' : Archive) × (a'' : Archive) × (serial_string new_chars (c ++ 0 ∷ rest) a
        ≡ some (c ++ 0 ∷ rest, a'))
      × (serial_string new_chars old (rewound a.stream.cur_pos a') ≡ some (c ++ 0 ∷ [], a''))
serial_string-ReadsBack new_chars c rest old a sizes all v m plain small room =
    let n : ℕ = length c in
    let str : List ℕ = c ++ 0 ∷ rest in
    let (b, nb, e, s) = serial_int-Sent a v m n (omega arith) in
    let (d, new, f, t) =
      serial_chars-Sent b s.wrote.valid (s.mode ∙ m) str n
        (omega (arith, length-append c (0 ∷ rest))) (omega arith)
        (omega (arith, s.wrote.pos, length-le_bytes 4 n)) in
    let back : Archive = rewound a.stream.cur_pos d in
    let bs : List ℕ = le_bytes 4 n ++ c in
    let t' : Sent b c d new =
      subst (λ l. Sent b l d new) (take-append_le n c (0 ∷ rest) (omega arith) ∙ take_self c) t in
    let r = Sent-Reads a bs v plain (Sent-trans (le_bytes 4 n) c v s t') in
    let (g, r1) =
      serial_int-Reads 0 n back _ (omega arith)
        (subst (Reads back new) (append_assoc (le_bytes 4 n) c _) r) in
    let (h, k) = terminated_copy c (new_chars (n + 1)) (sizes (n + 1)) in
    (
      d,
      moved n (moved 4 back),
      write_string_run new_chars str n a m (strlen_lem c rest all) e f,
      read_string_run new_chars old n back r.mode small g
          (chars_read_run (new_chars (n + 1)) n (moved 4 back) r1.mode (omega arith)
            (read_ahead (moved 4 back) c _ r1) h)
          k,
    )
