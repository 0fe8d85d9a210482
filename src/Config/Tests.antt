-- ===== src/Config/Tests.antt =====
-- A configuration with a level, an `int`, and a name, a text.
use event_server.Base.{ℕ, ◌≡◌, refl, Option, some, none, List, [], ◌∷◌, arith, if◌then◌else◌}
use event_server.Config.{
  CfgValue, CfgType, cfg_i, cfg_cstr, RefCell, key, same_text, set_value, get_value, overwrite,
  set_from, resolve, ref_of, ref_from, matches, tolower_text, lower, same_type, type_code,
}
use event_server.Config.Found.{find, Extends}
use event_server.Config.Sets.{Refers, after_set, before_set, set_value_lem}
use event_server.Config.Gets.{get-set, four, Agrees}
use event_server.Config.Cells.{set_value-Refers}
use event_server.Config.Texts.{Texts}
use event_server.Base.Memory.{store}
use event_server.Config.Lines.{State}
use event_server.Config.Saved.{Again}

-- "lvl", and the same in another spelling.
abbrev level : List ℕ
level = 108 ∷ 118 ∷ 108 ∷ []

abbrev spelled : List ℕ
spelled = 76 ∷ 118 ∷ 76 ∷ []

-- "bg"
abbrev title : List ℕ
title = 98 ∷ 103 ∷ []

abbrev values : List CfgValue
values =
    record { word = 3; alias = none; name = level; type = cfg_i; flag = 0 }
    ∷ record { word = 1; alias = none; name = title; type = cfg_cstr; flag = 0 }
    ∷ []

abbrev after : List CfgValue
after =
    record { word = 5; alias = none; name = level; type = cfg_i; flag = 0 }
    ∷ record { word = 1; alias = none; name = title; type = cfg_cstr; flag = 0 }
    ∷ []

set_value_example :
    (cell1 : RefCell) × (cfgs1 : List CfgValue) × (set_value 0 cfg_i 4 4 level none 5 values
      ≡ some (before_set 4 5 (find (key level) values), cell1, cfgs1))
    × Refers level cell1 cfgs1
    × Extends values cfgs1
    × ((k : List ℕ)
        → find k cfgs1 ≡ (
            if same_text (key level) k
            then some (after_set 0 cfg_i 4 4 level 5 (find (key level) values))
            else find k values))
unfolding Refers
set_value_example = set_value_lem 0 cfg_i 4 4 level none 5 values tt

set_level : set_value 0 cfg_i 4 4 level none 5 values ≡ some (3, none, after)
unfolding set_value set_from resolve ref_of ref_from matches same_text tolower_text lower store
    overwrite
set_level = refl

get_level_example :
    (cell3 : RefCell) × (get_value 0 cfg_i 4 4 spelled (some none) none 8 after
      ≡ some (5, cell3, after))
unfolding Refers Agrees find same_text tolower_text lower same_type type_code
get_level_example =
    get-set 0 cfg_i 4 4 level spelled none (some none) 5 8 3 none values after four (omega arith) tt
      refl set_level refl tt

cells_example : Refers level none after × Refers title (some (some 1)) after × Extends values after
unfolding Refers ref_of ref_from matches same_text tolower_text lower
cells_example =
    set_value-Refers 0 cfg_i 4 4 level title none none (some (some 1)) 5 3 values after tt refl
      set_level

-- "q" and a quote.
abbrev texts : Texts
texts = some (113 ∷ 34 ∷ []) ∷ []

-- A printer and a reader for the number 5 alone.
abbrev print_five : ℕ → List ℕ
print_five n = 53 ∷ []

abbrev read_five : List ℕ → ℕ
read_five s = 5

-- What is saved and loaded at the level's place.
abbrev LevelAgain : CfgType → ℕ → Option State → Type 0
LevelAgain =
    Again 0 read_five read_five read_five print_five print_five print_five 512 texts (some [])
      (texts, values) level none 0
