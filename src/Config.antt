-- ===== src/Config.antt =====
-- lae/source/LXZCoreCfg.cpp: named values of several types in one vector, found by name or by the
-- number of their place. The vector is the list of its elements, as `push_back` keeps it. Texts are
-- lists of bytes without their terminator.
mod Found
mod Sets
mod Gets
mod Cells
pub mod Texts
mod Lines
mod Quotes
mod Saved
mod Parsing
mod Loaded
mod Pieces
mod Filled
mod Places
mod Lined
mod Rounds
mod Again
mod FileTests
mod Tests
use event_server.Base.{
  ℕ, zero, suc, ◌+◌, ◌*◌, ◌/◌, ◌%◌, ◌^◌, Bool, true, false, ◌&&◌, ◌||◌, Option, none, some, List,
  [], ◌∷◌, ◌++◌, map, leb, ◌==◌, if◌then◌else◌, get_elem?, length, take, drop, splice,
}
use event_server.Base.Memory.{◌>>=◌, store}

pub data CfgType : Type 0 where
  cfg_null cfg_i cfg_f cfg_cstr cfg_p cfg_b cfg_u : CfgType

unfoldable pub type_code : CfgType → ℕ
type_code cfg_null = 255
type_code cfg_i = 0
type_code cfg_f = 1
type_code cfg_cstr = 2
type_code cfg_p = 3
type_code cfg_b = 4
type_code cfg_u = 5

-- `word` is the union, eight bytes: a pointer, or in its low bytes a number, a `float` or a `bool`.
pub record CfgValue : Type 0 where
  pub word : ℕ
  pub alias : Option (List ℕ)
  pub name : List ℕ
  pub type : CfgType
  pub flag : ℕ

-- `strcmp(a, b) == 0`
unfoldable pub same_text : List ℕ → List ℕ → Bool
same_text [] [] = true
same_text [] (y ∷ ys) = false
same_text (x ∷ xs) [] = false
same_text (x ∷ xs) (y ∷ ys) = (x == y) && same_text xs ys

-- `tolower` of the C locale.
unfoldable pub lower : ℕ → ℕ
lower c = if leb 65 c && leb c 90 then c + 32 else c

-- `tolower_` with a buffer of `buf_len` bytes.
unfoldable pub tolower_text : List ℕ → ℕ → List ℕ
tolower_text name zero = []
tolower_text name (suc buf_len) = take buf_len (map lower name)

-- The buffers of `Ref`.
abbrev pub key : List ℕ → List ℕ
key name = tolower_text name 512

unfoldable pub matches : List ℕ → Option (List ℕ) → CfgValue → Bool
matches name alias cfg =
    same_text (key cfg.name) (key name)
    || elim alias [ none ↦ false | some a ↦ same_text (key cfg.name) a ]

-- `Ref` from place `i` on; `none` is -1.
unfoldable pub ref_from : ℕ → List ℕ → Option (List ℕ) → List CfgValue → Option ℕ
ref_from i name alias [] = none
ref_from i name alias (cfg ∷ cfgs) =
    if matches name alias cfg then some i else ref_from (i + 1) name alias cfgs

unfoldable pub ref_of : List ℕ → Option (List ℕ) → List CfgValue → Option ℕ
ref_of name alias cfgs = ref_from 0 name alias cfgs

-- `int* ref_`: a null pointer, or a cell with -1 or a place.
abbrev pub RefCell : Type 0
RefCell = Option (Option ℕ)

-- The lines that every accessor begins with: the place, and what the cell holds then.
unfoldable pub resolve : List ℕ → Option (List ℕ) → RefCell → List CfgValue → Option ℕ × RefCell
resolve name alias (some (some ref)) cfgs = (some ref, some (some ref))
resolve name alias (some none) cfgs = let ref : Option ℕ = ref_of name alias cfgs in (ref, some ref)
resolve name alias none cfgs = (ref_of name alias cfgs, none)

-- The low `width` bytes of the union, and the union after they have been written.
abbrev pub low : ℕ → ℕ → ℕ
low width word = word % 2 ^ (8 * width)

unfoldable pub overwrite : ℕ → ℕ → ℕ → ℕ
overwrite width v word = word / 2 ^ (8 * width) * 2 ^ (8 * width) + low width v

abbrev pub set_ref : RefCell → ℕ → RefCell
set_ref none ref = none
set_ref (some r) ref = some (some ref)

unfoldable pub same_type : CfgType → CfgType → Bool
same_type a b = type_code a == type_code b

-- `raw` is what `new` leaves in the union.
module _ (raw : ℕ) where
  -- The setters from the place on: a value of `type`, of `width` bytes. A new value is written with
  -- `first` bytes. The results are what the setter returns, the cell and the vector.
  unfoldable pub set_from :
      CfgType
      → ℕ
      → ℕ
      → List ℕ
      → ℕ
      → List CfgValue
      → Option ℕ
      → RefCell
      → Option (ℕ × RefCell × List CfgValue)
  set_from type width first name v cfgs none cell = some (
    v,
    set_ref cell (length cfgs),
    cfgs
        ++ record { word = overwrite first v raw; alias = none; name = name; type = type; flag = 0 }
          ∷ [],
  )
  set_from type width first name v cfgs (some r) cell = do
    cfg ← get_elem? cfgs r
    cfgs1 ← store r (record cfg { word = overwrite width v cfg.word } ∷ []) cfgs
    some (low width cfg.word, cell, cfgs1)

  unfoldable pub set_value :
      CfgType → ℕ → ℕ → List ℕ → RefCell → ℕ → List CfgValue → Option (ℕ × RefCell × List CfgValue)
  set_value type width first name cell v cfgs =
      let found : Option ℕ × RefCell = resolve name none cell cfgs in
      set_from type width first name v cfgs found.0 found.1

  -- The getters from the place on: where no value of the type is found, the default is set under the
  -- name.
  unfoldable pub get_default :
      CfgType → ℕ → ℕ → List ℕ → RefCell → ℕ → List CfgValue → Option (ℕ × RefCell × List CfgValue)
  get_default type width first name cell default cfgs = do
    (_, cell1, cfgs1) ← set_value type width first name cell default cfgs
    some (default, cell1, cfgs1)

  unfoldable pub get_from :
      CfgType
      → ℕ
      → ℕ
      → List ℕ
      → ℕ
      → List CfgValue
      → Option ℕ
      → RefCell
      → Option (ℕ × RefCell × List CfgValue)
  get_from type width first name default cfgs none cell =
      get_default type width first name cell default cfgs
  get_from type width first name default cfgs (some r) cell = do
    cfg ← get_elem? cfgs r
    if same_type cfg.type type
        then some (low width cfg.word, cell, cfgs)
        else get_default type width first name cell default cfgs

  unfoldable pub get_value :
      CfgType
      → ℕ
      → ℕ
      → List ℕ
      → RefCell
      → Option (List ℕ)
      → ℕ
      → List CfgValue
      → Option (ℕ × RefCell × List CfgValue)
  get_value type width first name cell alias default cfgs =
      let found : Option ℕ × RefCell = resolve name alias cell cfgs in
      get_from type width first name default cfgs found.0 found.1

  unfoldable pub set_obj :
      List ℕ → RefCell → ℕ → List CfgValue → Option (ℕ × RefCell × List CfgValue)
  set_obj name cell v cfgs = set_value cfg_p 8 8 name cell v cfgs

  unfoldable pub get_obj :
      List ℕ → RefCell → Option (List ℕ) → ℕ → List CfgValue → Option (ℕ × RefCell × List CfgValue)
  get_obj name cell alias default cfgs = get_value cfg_p 8 8 name cell alias default cfgs

  unfoldable pub set_uint :
      List ℕ → RefCell → ℕ → List CfgValue → Option (ℕ × RefCell × List CfgValue)
  set_uint name cell v cfgs = set_value cfg_u 4 4 name cell v cfgs

  unfoldable pub get_uint :
      List ℕ → RefCell → Option (List ℕ) → ℕ → List CfgValue → Option (ℕ × RefCell × List CfgValue)
  get_uint name cell alias default cfgs = get_value cfg_u 4 4 name cell alias default cfgs

  unfoldable pub set_float :
      List ℕ → RefCell → ℕ → List CfgValue → Option (ℕ × RefCell × List CfgValue)
  set_float name cell v cfgs = set_value cfg_f 4 4 name cell v cfgs

  unfoldable pub get_float :
      List ℕ → RefCell → Option (List ℕ) → ℕ → List CfgValue → Option (ℕ × RefCell × List CfgValue)
  get_float name cell alias default cfgs = get_value cfg_f 4 4 name cell alias default cfgs

  unfoldable pub set_int :
      List ℕ → RefCell → ℕ → List CfgValue → Option (ℕ × RefCell × List CfgValue)
  set_int name cell v cfgs = set_value cfg_i 4 4 name cell v cfgs

  unfoldable pub get_int :
      List ℕ → RefCell → Option (List ℕ) → ℕ → List CfgValue → Option (ℕ × RefCell × List CfgValue)
  get_int name cell alias default cfgs = get_value cfg_i 4 4 name cell alias default cfgs

  -- A new `bool` is written as an `int`.
  unfoldable pub set_bool :
      List ℕ → RefCell → ℕ → List CfgValue → Option (ℕ × RefCell × List CfgValue)
  set_bool name cell v cfgs = set_value cfg_b 1 4 name cell v cfgs

  unfoldable pub get_bool :
      List ℕ → RefCell → Option (List ℕ) → ℕ → List CfgValue → Option (ℕ × RefCell × List CfgValue)
  get_bool name cell alias default cfgs = get_value cfg_b 1 4 name cell alias default cfgs

-- `GetSaveFlag` and `SetSaveFlag`; `none` is a negative `ref`.
unfoldable pub get_save_flag : Option ℕ → List CfgValue → Bool
get_save_flag none cfgs = false
get_save_flag (some ref) cfgs = elim (get_elem? cfgs ref) [
  | none ↦ false
  | some cfg ↦ cfg.flag == 1
]

unfoldable pub set_save_flag : Option ℕ → Bool → List CfgValue → List CfgValue
set_save_flag none saved cfgs = cfgs
set_save_flag (some ref) saved cfgs = elim (get_elem? cfgs ref) [
  | none ↦ cfgs
  | some cfg ↦ splice ref (record cfg { flag = if saved then 1 else 0 } ∷ []) cfgs
]
