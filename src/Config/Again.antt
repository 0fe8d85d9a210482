-- ===== src/Config/Again.antt =====
-- `load` on the file that `save` has written.
use event_server.Base.{ℕ, ◌≤◌, ◌≡◌, refl, Option, some, List, [], ◌∷◌, ◌++◌, length}
use event_server.Config.{CfgValue}
use event_server.Config.Texts.{Texts}
use event_server.Config.Lines.{State, line_end, save_text, save, save_file}
use event_server.Config.Parsing.{load_file}
use event_server.Config.Pieces.{IsPlain, Lines, no_line, one_line, joined}
use event_server.Config.Lined.{load_all}
use event_server.Config.Loaded.{load_file_lem}

module _ (print_float print_int print_uint : ℕ → List ℕ) (room : ℕ) (texts : Texts) where
  -- Each value is printed as a line of its own, whatever the buffer held before.
  pub data SavedAs : List CfgValue → List (List ℕ) → Type 0 where
    none_saved : SavedAs [] []
    one_saved :
        (cfg : CfgValue) (cfgs : List CfgValue) (line : List ℕ) (lines : List (List ℕ))
        → ((buf : Option (List ℕ))
            → save_text print_float print_int print_uint room texts cfg buf
              ≡ some (line ++ line_end))
        → IsPlain line
        → length line ≤ 1021
        → SavedAs cfgs lines
        → SavedAs (cfg ∷ cfgs) (line ∷ lines)

  SavedAs-Lines : {cfgs : List CfgValue} {lines : List (List ℕ)} → SavedAs cfgs lines → Lines lines
  SavedAs-Lines none_saved = no_line
  SavedAs-Lines (one_saved _ _ line lines e p h s) = one_line line lines p h (SavedAs-Lines s)

  save_run :
      (cfg : CfgValue) (cfgs : List CfgValue) (buf : Option (List ℕ)) {line rest : List ℕ}
      → save_text print_float print_int print_uint room texts cfg buf ≡ some line
      → save print_float print_int print_uint room texts cfgs (some line) ≡ some rest
      → save print_float print_int print_uint room texts (cfg ∷ cfgs) buf ≡ some (line ++ rest)
  unfolding save
  save_run cfg cfgs buf e f = rw (e, f) refl

  save_lem :
      {cfgs : List CfgValue} {lines : List (List ℕ)} (buf : Option (List ℕ))
      → SavedAs cfgs lines
      → save print_float print_int print_uint room texts cfgs buf ≡ some (joined lines)
  unfolding save
  save_lem buf none_saved = refl
  save_lem buf (one_saved cfg cfgs line lines e p h s) =
      save_run cfg cfgs buf (e buf) (save_lem (some (line ++ line_end)) s)

  -- What `save` writes for any number of values, each of which it prints as one line, `load` reads back
  -- whole: it does what each line says, in the order of the values, as long as every line can be
  -- stored. No line has a zero or a carriage return in it, nor more than 1021 bytes without its end.
  pub load_file-save_file :
      (raw : ℕ) (atof atoi atol : List ℕ → ℕ) (cfgs : List CfgValue) (lines : List (List ℕ))
      (state : State)
      → SavedAs cfgs lines
      → (file : List ℕ) × (save_file print_float print_int print_uint room texts cfgs ≡ some file)
        × (load_file raw atof atoi atol file state ≡ load_all raw atof atoi atol lines state)
  unfolding save_file
  load_file-save_file raw atof atoi atol cfgs lines state s = (
    joined lines,
    save_lem (some []) s,
    load_file_lem raw atof atoi atol lines state (SavedAs-Lines s),
  )
