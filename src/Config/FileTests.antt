-- ===== src/Config/FileTests.antt =====
-- A file of two lines, and the file that is saved for one value.
use event_server.Base.{ℕ, ◌≡◌, refl, Option, some, none, List, [], ◌∷◌, ◌++◌, arith}
use event_server.Config.{CfgValue, cfg_i}
use event_server.Config.Lines.{State, line_end, save_text, print_line, save_file}
use event_server.Config.Parsing.{load_file}
use event_server.Config.Pieces.{IsPlain, plain_end, plain_more, Lines, no_line, one_line, joined}
use event_server.Config.Lined.{load_all}
use event_server.Config.Loaded.{load_file_lem}
use event_server.Config.Again.{SavedAs, none_saved, one_saved, load_file-save_file}

-- "a=i5" and "b=t"
abbrev first_line : List ℕ
first_line = 97 ∷ 61 ∷ 105 ∷ 53 ∷ []

abbrev second_line : List ℕ
second_line = 98 ∷ 61 ∷ 116 ∷ []

first_line-IsPlain : IsPlain first_line
first_line-IsPlain =
    plain_more 97 _ refl refl
      (plain_more 61 _ refl refl (plain_more 105 _ refl refl (plain_more 53 _ refl refl plain_end)))

second_line-IsPlain : IsPlain second_line
second_line-IsPlain =
    plain_more 98 _ refl refl (plain_more 61 _ refl refl (plain_more 116 _ refl refl plain_end))

abbrev both : List (List ℕ)
both = first_line ∷ second_line ∷ []

both-Lines : Lines both
both-Lines =
    one_line _ _ first_line-IsPlain (omega arith)
      (one_line _ _ second_line-IsPlain (omega arith) no_line)

abbrev read_five : List ℕ → ℕ
read_five s = 5

abbrev print_five : ℕ → List ℕ
print_five n = 53 ∷ []

abbrev empty_state : State
empty_state = ([], [])

load_file_example :
    load_file 0 read_five read_five read_five (joined both) empty_state
    ≡ load_all 0 read_five read_five read_five both empty_state
load_file_example = load_file_lem 0 read_five read_five read_five both empty_state both-Lines

abbrev number : CfgValue
number = record { word = 5; alias = none; name = 97 ∷ []; type = cfg_i; flag = 0 }

number-save_text :
    (buf : Option (List ℕ))
    → save_text print_five print_five print_five 512 [] number buf ≡ some (first_line ++ line_end)
unfolding save_text print_line
number-save_text buf = refl

number-SavedAs : SavedAs print_five print_five print_five 512 [] (number ∷ []) (first_line ∷ [])
number-SavedAs =
    one_saved number [] first_line [] number-save_text first_line-IsPlain (omega arith) none_saved

save_file_example :
    (file : List ℕ) × (save_file print_five print_five print_five 512 [] (number ∷ []) ≡ some file)
    × (load_file 0 read_five read_five read_five file empty_state
        ≡ load_all 0 read_five read_five read_five (first_line ∷ []) empty_state)
save_file_example =
    load_file-save_file print_five print_five print_five 512 [] 0 read_five read_five read_five
      (number ∷ []) (first_line ∷ []) empty_state number-SavedAs
