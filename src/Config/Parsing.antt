-- ===== src/Config/Parsing.antt =====
-- lae/source/LXZCoreCfg.cpp: `CStringParsing`, and `load`, which reads the file into a buffer piece by
-- piece and takes the lines from it.
use event_server.Base.{
  ℕ, zero, suc, ◌+◌, ◌-◌, ◌%◌, Bool, true, false, ◌&&◌, not, min, Option, none, some, List, [], ◌∷◌,
  ltb, leb, ◌==◌, if◌then◌else◌, length, take, drop, replicate, get_elem?, size_mod, size_of_int,
  int_mod,
}
use event_server.Base.Memory.{◌>>=◌, store}
use event_server.Config.Lines.{State, line_end, load_line}

-- `strstr`
unfoldable pub begins : List ℕ → List ℕ → Bool
begins [] text = true
begins (c ∷ rest) [] = false
begins (c ∷ rest) (x ∷ text) = (x == c) && begins rest text

unfoldable pub find : List ℕ → List ℕ → Option ℕ
find sep [] = if begins sep [] then some 0 else none
find sep (x ∷ text) = elim (begins sep (x ∷ text)) [
  | true ↦ some 0
  | false ↦ do k ← find sep text; some (suc k)
]

-- `CStringParsing`; `text` is `_string` up to its end, which is `_length` bytes off.
pub record Parsing : Type 0 where
  pub text : List ℕ
  pub position : ℕ
  pub is_overflow : Bool

-- The size that `_substring` copies; where there is no separator, an `int` passes it on.
unfoldable pub copied_size : ℕ → Option ℕ → Parsing → ℕ
copied_size len none s =
    size_of_int (min ((len + (size_mod - 1)) % size_mod) (length s.text - s.position) % int_mod)
copied_size len (some k) s = min ((len + (size_mod - 1)) % size_mod) k

unfoldable pub found_at : Option (List ℕ) → Parsing → Option ℕ
found_at split s = do sep ← split; find sep (drop s.position s.text)

-- `_substring`: what it puts into the buffer, if it does.
unfoldable pub substring : ℕ → Option (List ℕ) → Parsing → Option (List ℕ) × Parsing
substring len split s =
    if leb (length s.text) s.position
    then (none, record s { is_overflow = true })
    else (some (take (copied_size len (found_at split s) s) (drop s.position s.text)), s)

unfoldable pub split_length : Option (List ℕ) → ℕ
split_length none = 0
split_length (some sep) = length sep

unfoldable pub get_string : ℕ → Option (List ℕ) → Parsing → Option (List ℕ) × Parsing
get_string len split s =
    let (got, s1) = substring len split s in
    let size : ℕ = elim got [ none ↦ 0 | some text ↦ length text ] in
    let more : ℕ = if s1.is_overflow then 0 else split_length split in
    (got, record s1 { position = s1.position + size + more })

-- What `line` holds.
unfoldable pub line_of : List ℕ → List ℕ → List ℕ
line_of sep text =
    elim (get_string 1023 (some sep)
      (record { text = text; position = 0; is_overflow = false })).0 [
        | none ↦ []
        | some line ↦ line
      ]

unfoldable pub until_zero : List ℕ → List ℕ
until_zero [] = []
until_zero (c ∷ rest) = if c == 0 then [] else c ∷ until_zero rest

-- What `load` works with: the file is read up to `rest`.
pub record Reading : Type 0 where
  pub buf : List ℕ
  pub offset : ℕ
  pub rest : List ℕ
  pub state : State

-- `buf` after `fread` has put `got` there, and after what follows that.
unfoldable pub fill : List ℕ → ℕ → List ℕ → Option (List ℕ)
fill got offset buf = do
  buf1 ← store offset got buf
  buf2 ← store (offset + length got) (0 ∷ []) buf1
  last ← get_elem? buf2 (offset + length got - 1)
  if ltb (offset + length got + 2) 1024 && not (last == 10)
      then store (offset + length got) line_end buf2
      else some buf2

-- What is left goes to the start of the buffer.
unfoldable pub keep_left : List ℕ → List ℕ → Option (List ℕ)
keep_left left buf = do buf1 ← store 0 left buf; store (length left) (0 ∷ []) buf1

unfoldable pub separator : List ℕ → List ℕ
separator text = elim (find line_end text) [ none ↦ 10 ∷ [] | some k ↦ line_end ]

module _ (raw : ℕ) (atof atoi atol : List ℕ → ℕ) where
  -- The inner loop, on fuel: the lines of `text`, and what is left of it.
  unfoldable pub load_lines : List ℕ → ℕ → List ℕ → State → Option (List ℕ × State)
  load_lines sep zero text state = none
  load_lines sep (suc n) text state = elim (find sep text) [
    | none ↦ some (text, state)
    | some k ↦ do
      state1 ← load_line raw atof atoi atol (line_of sep text) state
      load_lines sep n (drop (k + length sep) text) state1
  ]

  -- The lines of what is in the buffer, `text`. Where there is no end of a line, the place where the
  -- next piece goes stays the same.
  unfoldable pub take_lines : List ℕ → Reading → Option Reading
  take_lines text r = elim (find (separator text) text) [
    | none ↦ some r
    | some k ↦ do
      (left, state) ← load_lines (separator text) (suc (length text)) text r.state
      kept ← keep_left left r.buf
      some (record r { buf = kept; offset = length left; state = state })
  ]

  -- One round of the outer loop.
  unfoldable pub load_round : List ℕ → Reading → Option Reading
  load_round got r = do
    buf ← fill got r.offset r.buf
    take_lines (until_zero buf) (record r { buf = buf; rest = drop (length got) r.rest })

  -- The outer loop, on fuel, until `fread` gives nothing. A size below 0 is a huge one for `fread`.
  unfoldable pub load_from : ℕ → Reading → Option State
  load_from zero r = none
  load_from (suc n) r = if ltb 1024 r.offset then none else elim (take (1024 - r.offset) r.rest) [
    | [] ↦ some r.state
    | c ∷ got ↦ do r1 ← load_round (c ∷ got) r; load_from n r1
  ]

  -- `load` on a file that can be opened.
  unfoldable pub load_file : List ℕ → State → Option State
  load_file file state =
      load_from (suc (length file))
        (record { buf = replicate 2048 0; offset = 0; rest = file; state = state })
