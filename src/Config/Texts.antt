-- ===== src/Config/Texts.antt =====
-- lae/source/LXZCoreCfg.cpp: the values that are texts, and the lines of the file.
use event_server.Base.{
  ℕ, zero, suc, ◌+◌, Bool, true, false, not, ◌&&◌, ◌||◌, Option, none, some, List, [], ◌∷◌, ◌++◌,
  leb, ◌==◌, if◌then◌else◌, get_elem?, length, splice,
}
use event_server.Base.Memory.{◌>>=◌, store}
use event_server.Config.{cfg_cstr, CfgValue, RefCell, same_text, same_type, resolve, set_ref}

-- The texts of `new char[]`: an address is a place and one, so that none is null; `none` has been
-- deleted.
abbrev pub Texts : Type 0
Texts = List (Option (List ℕ))

unfoldable pub text_at : ℕ → Texts → Option (List ℕ)
text_at zero texts = none
text_at (suc p) texts = do text ← get_elem? texts p; text

unfoldable pub delete_text : ℕ → Texts → Texts
delete_text zero texts = texts
delete_text (suc p) texts = splice p (none ∷ []) texts

unfoldable pub cpstr : List ℕ → Texts → ℕ × Texts
cpstr s texts = (suc (length texts), texts ++ some s ∷ [])

-- `SetCString` at a value that is there. The result is the text of the pointer that is returned.
unfoldable pub replace_cstring :
    List ℕ
    → ℕ
    → List ℕ
    → RefCell
    → Texts
    → List CfgValue
    → CfgValue
    → Option (List ℕ × RefCell × Texts × List CfgValue)
replace_cstring name r v cell texts cfgs cf =
    if not (same_text cf.name name)
      && elim cf.alias [ none ↦ false | some alias ↦ not (same_text alias name) ]
    then some ([], cell, texts, cfgs)
    else (let (p, texts1) = cpstr v texts in
        do
          cfgs1 ← store r (record cf { word = p } ∷ []) cfgs
          if cf.word == 0 then some ([], cell, texts1, cfgs1) else (do
            old ← text_at cf.word texts1
            some (old, cell, delete_text cf.word texts1, cfgs1)))

unfoldable pub set_cstring_from :
    List ℕ
    → List ℕ
    → Texts
    → List CfgValue
    → Option ℕ
    → RefCell
    → Option (List ℕ × RefCell × Texts × List CfgValue)
set_cstring_from name v texts cfgs none cell =
    let (p, texts1) = cpstr v texts in
    some (
      v,
      set_ref cell (length cfgs),
      texts1,
      cfgs ++ record { word = p; alias = none; name = name; type = cfg_cstr; flag = 0 } ∷ [],
    )
set_cstring_from name v texts cfgs (some r) cell = do
  cf ← get_elem? cfgs r
  replace_cstring name r v cell texts cfgs cf

unfoldable pub set_cstring :
    List ℕ
    → RefCell
    → List ℕ
    → Texts
    → List CfgValue
    → Option (List ℕ × RefCell × Texts × List CfgValue)
set_cstring name cell v texts cfgs =
    let found : Option ℕ × RefCell = resolve name none cell cfgs in
    set_cstring_from name v texts cfgs found.0 found.1

unfoldable pub get_cstring_default :
    List ℕ
    → RefCell
    → List ℕ
    → Texts
    → List CfgValue
    → Option (List ℕ × RefCell × Texts × List CfgValue)
get_cstring_default name cell default texts cfgs = do
  (_, cell1, texts1, cfgs1) ← set_cstring name cell default texts cfgs
  some (default, cell1, texts1, cfgs1)

unfoldable pub get_cstring_from :
    List ℕ
    → List ℕ
    → Texts
    → List CfgValue
    → Option ℕ
    → RefCell
    → Option (List ℕ × RefCell × Texts × List CfgValue)
get_cstring_from name default texts cfgs none cell =
    get_cstring_default name cell default texts cfgs
get_cstring_from name default texts cfgs (some r) cell = do
  cfg ← get_elem? cfgs r
  if same_type cfg.type cfg_cstr
      then (do text ← text_at cfg.word texts; some (text, cell, texts, cfgs))
      else get_cstring_default name cell default texts cfgs

unfoldable pub get_cstring :
    List ℕ
    → RefCell
    → Option (List ℕ)
    → List ℕ
    → Texts
    → List CfgValue
    → Option (List ℕ × RefCell × Texts × List CfgValue)
get_cstring name cell alias default texts cfgs =
    let found : Option ℕ × RefCell = resolve name alias cell cfgs in
    get_cstring_from name default texts cfgs found.0 found.1

-- `release`: the texts that are left; the vector is empty afterwards. The names are not among the texts.
unfoldable pub release_values : Texts → List CfgValue → Texts
release_values texts [] = texts
release_values texts (cfg ∷ cfgs) =
    release_values (if same_type cfg.type cfg_cstr then delete_text cfg.word texts else texts) cfgs

-- One round of the loop of `_isnumber`: the signs and the points so far.
unfoldable pub number_step : ℕ → ℕ → ℕ → Option (ℕ × ℕ)
number_step d c p =
    if p == 46
    then (if leb 2 (c + 1) then none else some (d, c + 1))
    else if leb 48 p && leb p 57
    then some (d, c)
    else if p == 45 || p == 43
    then (if leb 1 d then none else some (d + 1, c))
    else none

unfoldable pub number_from : ℕ → ℕ → List ℕ → Bool
number_from d c [] = true
number_from d c (p ∷ rest) = elim (number_step d c p) [
  | none ↦ false
  | some next ↦ number_from next.0 next.1 rest
]

unfoldable pub is_number : List ℕ → Bool
is_number [] = false
is_number (p ∷ rest) = number_from 0 0 (p ∷ rest)

unfoldable pub convert : List ℕ → List ℕ
convert [] = []
convert (c ∷ rest) =
    let rest1 : List ℕ = convert rest in if c == 34 then 92 ∷ 34 ∷ rest1 else c ∷ rest1

-- `*p`, of a text that ends with a zero.
unfoldable pub first_char : List ℕ → ℕ
first_char [] = 0
first_char (c ∷ rest) = c

-- A backslash before a quote.
unfoldable pub is_escape : ℕ → List ℕ → Bool
is_escape c rest = c == 92 && first_char rest == 34

-- The loop of `load` that reads a quoted text, behind the first quote. `skip` says that the character
-- has been read with a backslash before it.
unfoldable pub unquote_from : Bool → List ℕ → List ℕ
unquote_from skip [] = []
unquote_from true (c ∷ rest) = unquote_from false rest
unquote_from false (c ∷ rest) = elim (is_escape c rest) [
  | true ↦ 34 ∷ unquote_from true rest
  | false ↦ elim (c == 34) [ true ↦ [] | false ↦ c ∷ unquote_from false rest ]
]

abbrev pub unquote : List ℕ → List ℕ
unquote text = unquote_from false text
