-- ===== src/Config/Cells.antt =====
-- Setters keep the names and the places of the values, so that what a cell remembers stays right.
use event_server.Base.{ℕ, ◌≡◌, sym, ap, subst, ◌∙◌, none, some, List}
use event_server.Config.{CfgValue, CfgType, RefCell, ref_of, set_value}
use mathlib.Core.Option.{some-injective}
use event_server.Config.Found.{Extends, ref_from_extended}
use event_server.Config.Sets.{Refers, set_value_lem}

Refers-extended :
    (name : List ℕ) (cell : RefCell) (olds news : List CfgValue)
    → Extends olds news
    → Refers name cell olds
    → Refers name cell news
unfolding Refers ref_of
Refers-extended name none olds news more ok = tt
Refers-extended name (some none) olds news more ok = tt
Refers-extended name (some (some r)) olds news more ok = ref_from_extended name 0 olds news more ok

-- A setter keeps every cell right: its own, and those of the other names. It takes no value away, and
-- keeps the name and the type of each.
pub set_value-Refers :
    (raw : ℕ) (type : CfgType) (width first : ℕ) (name other : List ℕ) (cell cell1 cell2 : RefCell)
    (v r : ℕ) (cfgs cfgs1 : List CfgValue)
    → Refers name cell cfgs
    → Refers other cell2 cfgs
    → set_value raw type width first name cell v cfgs ≡ some (r, cell1, cfgs1)
    → Refers name cell1 cfgs1 × Refers other cell2 cfgs1 × Extends cfgs cfgs1
set_value-Refers raw type width first name other cell cell1 cell2 v r cfgs cfgs1 ok ok2 set =
    let (told1, after, run, refers, more, _) =
      set_value_lem raw type width first name cell v cfgs ok in
    let e = some-injective _ _ (sym run ∙ set) in
    let more1 : Extends cfgs cfgs1 = subst (Extends cfgs) (ap (λ t. t.2) e) more in
    (
      subst (λ l. Refers name cell1 l) (ap (λ t. t.2) e)
          (subst (λ c. Refers name c after) (ap (λ t. t.1) e) refers),
      Refers-extended other cell2 cfgs cfgs1 more1 ok2,
      more1,
    )
