-- ===== src/Config/Saved.antt =====
-- What `save` writes for a value, `load` stores again.
use event_server.Base.{
  ℕ, ◌<◌, ◌≡◌, true, false, Option, some, List, ◌++◌, if◌then◌else◌, ◌==◌, length,
}
use event_server.Config.{CfgType, CfgValue, low}
use event_server.Config.Texts.{Texts, is_number}
use event_server.Config.Lines.{line_end, skip_blanks, has_char, State, load_line, save_text}

-- A name that a line can have.
pub record IsName (name : List ℕ) : Type 0 where
  pub no_eq : has_char 61 name ≡ false
  pub solid : skip_blanks name ≡ name
  pub short : length name < 256

-- What the C library prints for a number, and what it reads from it.
pub record Printed (print : ℕ → List ℕ) (read : List ℕ → ℕ) (n : ℕ) : Type 0 where
  pub number : is_number (print n) ≡ true
  pub same : read (print n) ≡ n
  pub size : length (print n) < 255

-- `low 1 word == 0 ? 0 : 1`, what a `bool` of the union is read as.
abbrev pub as_bool : ℕ → ℕ
as_bool word = if low 1 word == 0 then 0 else 1

module _ (raw : ℕ) (atof atoi atol : List ℕ → ℕ) (print_float print_int print_uint : ℕ → List ℕ)
    (room : ℕ) (texts : Texts) (buf : Option (List ℕ)) (state : State) (name : List ℕ)
    (alias : Option (List ℕ)) (flag : ℕ) where
  -- `save` writes a line for the value, and `load` does with that line what `result` is.
  unfoldable pub Again : CfgType → ℕ → Option State → Type 0
  Again type word result =
      (line : List ℕ) × (save_text print_float print_int print_uint room texts
          (record { word = word; alias = alias; name = name; type = type; flag = flag }) buf
        ≡ some (line ++ line_end))
      × (load_line raw atof atoi atol line state ≡ result)

  value_of : CfgType → ℕ → CfgValue
  value_of type word = record { word = word; alias = alias; name = name; type = type; flag = flag }
