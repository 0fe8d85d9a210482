-- ===== src/Config/Lines.antt =====
-- lae/source/LXZCoreCfg.cpp: what `load` does with one line, and what `save` writes for one value.
use event_server.Base.{
  ℕ, Bool, true, false, ◌||◌, ◌&&◌, Option, none, some, List, [], ◌∷◌, ◌++◌, ltb, ◌==◌,
  if◌then◌else◌, length,
}
use event_server.Base.Memory.{◌>>=◌}
use event_server.Config.{
  cfg_i, cfg_f, cfg_cstr, cfg_b, cfg_u, CfgValue, RefCell, same_text, low, set_bool, set_float,
  set_int,
}
use event_server.Config.Texts.{Texts, text_at, set_cstring, is_number, convert, unquote}

abbrev pub true_text : List ℕ
true_text = 116 ∷ 114 ∷ 117 ∷ 101 ∷ []

abbrev pub false_text : List ℕ
false_text = 102 ∷ 97 ∷ 108 ∷ 115 ∷ 101 ∷ []

abbrev pub line_end : List ℕ
line_end = 13 ∷ 10 ∷ []

-- The parts before and behind the first '='.
unfoldable pub split_eq : List ℕ → Option (List ℕ × List ℕ)
split_eq [] = none
split_eq (c ∷ rest) = elim (c == 61) [
  | true ↦ some ([], rest)
  | false ↦ do (name, value) ← split_eq rest; some (c ∷ name, value)
]

unfoldable pub skip_blanks : List ℕ → List ℕ
skip_blanks [] = []
skip_blanks (c ∷ rest) = if c == 10 || c == 13 || c == 9 then skip_blanks rest else c ∷ rest

-- `strstr(p, ".") != NULL`
unfoldable pub has_char : ℕ → List ℕ → Bool
has_char x [] = false
has_char x (c ∷ rest) = (c == x) || has_char x rest

abbrev pub State : Type 0
State = Texts × List CfgValue

-- A setter's call whose result is dropped.
unfoldable pub run_set : Option (ℕ × RefCell × List CfgValue) → Texts → Option State
run_set result texts = do (_, _, cfgs) ← result; some (texts, cfgs)

-- `raw` is what `new` leaves in the union. `atof` and `atoi` are those of the C library: the four bytes
-- of the `float`, and of the `int`; `atol` is cast to one.
module _ (raw : ℕ) (atof atoi atol : List ℕ → ℕ) where
  unfoldable pub set_cstring_line : List ℕ → List ℕ → State → Option State
  set_cstring_line name v state = do
    (_, _, texts, cfgs) ← set_cstring name none v state.0 state.1
    some (texts, cfgs)

  unfoldable pub set_float_line : List ℕ → List ℕ → State → Option State
  set_float_line name p state = run_set (set_float raw name none (atof p) state.1) state.0

  unfoldable pub set_int_line : List ℕ → ℕ → State → Option State
  set_int_line name v state = run_set (set_int raw name none v state.1) state.0

  unfoldable pub set_bool_line : List ℕ → ℕ → State → Option State
  set_bool_line name v state = run_set (set_bool raw name none v state.1) state.0

  -- The tests on the first character, of a value that is no number.
  unfoldable pub load_marked : List ℕ → List ℕ → State → Option State
  load_marked name [] state = set_cstring_line name [] state
  load_marked name (c ∷ p) state =
      if c == 34
      then set_cstring_line name (unquote p) state
      else if (c == 102) && is_number p
      then set_float_line name p state
      else if (c == 105) && is_number p
      then set_int_line name (atoi p) state
      else if (c == 117) && is_number p
      then set_int_line name (atol p) state
      else set_cstring_line name (c ∷ p) state

  unfoldable pub load_value : List ℕ → List ℕ → State → Option State
  load_value name p state =
      if same_text p true_text
      then set_bool_line name 1 state
      else if same_text p false_text
      then set_bool_line name 0 state
      else if is_number p
      then (if has_char 46 p then set_float_line name p state else set_int_line name (atoi p) state)
      else load_marked name p state

  -- One line, without its end. `name` and `value` have 256 bytes each, with the terminator.
  unfoldable pub load_parts : Option (List ℕ × List ℕ) → State → Option State
  load_parts none state = some state
  load_parts (some parts) state =
      if ltb (length parts.0) 256 && ltb (length parts.1) 256
      then load_value (skip_blanks parts.0) parts.1 state
      else none

  unfoldable pub load_line : List ℕ → State → Option State
  load_line line state = load_parts (split_eq line) state

-- `sprintf` into `buf`, which has 1024 bytes: a line with its end.
unfoldable pub print_line : List ℕ → List ℕ → Option (List ℕ)
print_line name value =
    let line : List ℕ = name ++ 61 ∷ (value ++ line_end) in
    if ltb (length line) 1024 then some line else none

-- The printing of `sprintf` with `%f`, `%d` and `%u`. `room` is what `m_tmpAlloc` has.
module _ (print_float print_int print_uint : ℕ → List ℕ) (room : ℕ) where
  -- What is in `buf` when the value is written: `buf` is what the last one left.
  unfoldable pub save_text : Texts → CfgValue → Option (List ℕ) → Option (List ℕ)
  save_text texts cfg buf = elim cfg.type [
    | cfg_cstr ↦ do
      s ← text_at cfg.word texts
      if ltb (length (convert s)) room
          then print_line cfg.name (34 ∷ (convert s ++ 34 ∷ []))
          else none
    | cfg_b ↦ print_line cfg.name (if low 1 cfg.word == 0 then false_text else true_text)
    | cfg_f ↦ print_line cfg.name (102 ∷ print_float (low 4 cfg.word))
    | cfg_i ↦ print_line cfg.name (105 ∷ print_int (low 4 cfg.word))
    | cfg_u ↦ print_line cfg.name (117 ∷ print_uint (low 4 cfg.word))
    | _ ↦ buf
  ]

  unfoldable pub save : Texts → List CfgValue → Option (List ℕ) → Option (List ℕ)
  save texts [] buf = some []
  save texts (cfg ∷ cfgs) buf = do
    buf1 ← save_text texts cfg buf
    rest ← save texts cfgs (some buf1)
    some (buf1 ++ rest)

  unfoldable pub save_file : Texts → List CfgValue → Option (List ℕ)
  save_file texts cfgs = save texts cfgs (some [])
