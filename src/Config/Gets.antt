-- ===== src/Config/Gets.antt =====
-- What the getters return after a setter.
use event_server.Base.{
  ℕ, ◌*◌, ◌^◌, ◌<◌, ◌≡◌, refl, sym, ap, ◌∙◌, true, inl, inr, Option, none, some, List, arith,
  length, get_elem?,
}
use mathlib.Core.Option.{some-injective, none-ne-some}
use event_server.Base.Memory.{get_at}
use event_server.Config.{
  CfgValue, CfgType, RefCell, same_type, same_text, key, ref_of, low, overwrite, set_value,
  get_from, get_value,
}
use event_server.Config.Found.{find, find_at, ref_at, ref_from_lem}
use event_server.Config.Sets.{Refers, after_set, told, resolve_lem, set_value_lem}

-- No value, or one of the type.
unfoldable pub Agrees : CfgType → Option CfgValue → Type 0
Agrees type none = Unit
Agrees type (some cfg) = same_type cfg.type type ≡ true

same_type_refl : (type : CfgType) → same_type type type ≡ true
unfolding same_type
same_type_refl type = ground arith

-- The widths that the accessors have, and those that a new value is written with.
pub data Widths : ℕ → ℕ → Type 0 where
  eight : Widths 8 8
  four : Widths 4 4
  one_of_four : Widths 1 4

low-overwrite :
    (width first v word : ℕ)
    → Widths width first
    → v < 2 ^ (8 * width)
    → (low width (overwrite first v word) ≡ v) × (low width (overwrite width v word) ≡ v)
unfolding overwrite
low-overwrite width first v word eight small = (omega arith, omega arith)
low-overwrite width first v word four small = (omega arith, omega arith)
low-overwrite width first v word one_of_four small = (omega arith, omega arith)

after_set-low :
    (raw : ℕ) (type : CfgType) (width first : ℕ) (name : List ℕ) (v : ℕ) (old : Option CfgValue)
    → Widths width first
    → v < 2 ^ (8 * width)
    → Agrees type old
    → let new : CfgValue = after_set raw type width first name v old in
      (low width new.word ≡ v) × (same_type new.type type ≡ true)
unfolding after_set Agrees
after_set-low raw type width first name v none ok small agrees =
    ((low-overwrite width first v raw ok small).0, same_type_refl type)
after_set-low raw type width first name v (some cfg) ok small agrees =
    ((low-overwrite width first v cfg.word ok small).1, agrees)

module _ (raw : ℕ) (type : CfgType) (width first : ℕ) where
  get_run :
      (name : List ℕ) (cell : RefCell) (default : ℕ) (cfgs : List CfgValue) {r : ℕ} {cfg : CfgValue}
      → Refers name cell cfgs
      → ref_of name none cfgs ≡ some r
      → get_elem? cfgs r ≡ some cfg
      → same_type cfg.type type ≡ true
      → get_value raw type width first name cell none default cfgs
        ≡ some (low width cfg.word, told cell (some r), cfgs)
  unfolding get_value get_from
  get_run name cell default cfgs ok e f g = rw (resolve_lem name cell cfgs ok, e, f, g)

  get_found :
      (name : List ℕ) (cell : RefCell) (default : ℕ) (cfgs : List CfgValue) {cfg : CfgValue}
      → Refers name cell cfgs
      → find (key name) cfgs ≡ some cfg
      → same_type cfg.type type ≡ true
      → (cell1 : RefCell) × (get_value raw type width first name cell none default cfgs
          ≡ some (low width cfg.word, cell1, cfgs))
  get_found name cell default cfgs {cfg} ok e g = elim (ref_from_lem name 0 cfgs) [
    | inl gone ↦ absurd (none-ne-some _ (sym gone.unknown ∙ e))
    | inr at ↦
        let same : at.cfg ≡ cfg = some-injective _ _ (sym (find_at name cfgs at) ∙ e) in
        (
          told cell (some (length at.before)),
          get_run name cell default cfgs ok (ref_at name cfgs at)
              (ap (λ l. get_elem? l (length at.before)) at.parts
                ∙ get_at at.before at.after at.cfg
                ∙ ap some same)
              g,
        )
  ]

  -- After a setter has stored a value under a name that had none, or one of the same type, a getter
  -- of the type that is asked without an alias returns it under every spelling of the name, whatever
  -- its default is, and leaves the values as they are. The value fits the width, and the cells of both
  -- calls are kept for their names.
  pub get-set :
      (name other : List ℕ) (cell cell2 : RefCell) (v default r : ℕ) (cell1 : RefCell)
      (cfgs cfgs1 : List CfgValue)
      → Widths width first
      → v < 2 ^ (8 * width)
      → Refers name cell cfgs
      → Agrees type (find (key name) cfgs)
      → set_value raw type width first name cell v cfgs ≡ some (r, cell1, cfgs1)
      → same_text (key name) (key other) ≡ true
      → Refers other cell2 cfgs1
      → (cell3 : RefCell) × (get_value raw type width first other cell2 none default cfgs1
          ≡ some (v, cell3, cfgs1))
  get-set name other cell cell2 v default r cell1 cfgs cfgs1 ok small refers agrees set same
        refers2 =
      let (_, after, run, _, _, law) = set_value_lem raw type width first name cell v cfgs refers in
      let (value, typed) =
        after_set-low raw type width first name v (find (key name) cfgs) ok small agrees in
      let there : after ≡ cfgs1 = ap (λ t. t.2) (some-injective _ _ (sym run ∙ set)) in
      let (cell3, got) =
        get_found other cell2 default cfgs1
          {cfg = after_set raw type width first name v (find (key name) cfgs)} refers2
          (ap (find (key other)) (sym there) ∙ law (key other) ∙ rw same refl) typed in
      (cell3, got ∙ ap (λ n. some (n, cell3, cfgs1)) value)
