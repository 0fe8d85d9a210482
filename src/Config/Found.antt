-- ===== src/Config/Found.antt =====
-- The abstract view of the configuration: a map from lower-case names to values. What `Ref` finds is
-- what the map has.
use event_server.Base.{
  ℕ, ◌+◌, ◌≡◌, refl, sym, ap, ap₂, ◌∙◌, true, false, ◌⊎◌, inl, inr, Option, none, some, List, [],
  ◌∷◌, ◌++◌, arith, ==_iff, Bool-cases, if◌then◌else◌, length,
}
use mathlib.Core.Option.{none-ne-some}
use event_server.Config.{CfgValue, same_text, key, matches, ref_from, ref_of}

pub same_text_refl : (xs : List ℕ) → same_text xs xs ≡ true
unfolding same_text
same_text_refl [] = refl
same_text_refl (x ∷ xs) = rw ((==_iff x x).1 refl, same_text_refl xs)

pub same_text→≡ : (xs ys : List ℕ) → same_text xs ys ≡ true → xs ≡ ys
unfolding same_text
same_text→≡ [] [] h = refl
same_text→≡ [] (y ∷ ys) h = absurd (ground arith)
same_text→≡ (x ∷ xs) [] h = absurd (ground arith)
same_text→≡ (x ∷ xs) (y ∷ ys) h =
    ap₂ (λ z zs. z ∷ zs) (ground arith) (same_text→≡ xs ys (ground arith))

-- The value that the map has for `k`.
unfoldable pub find : List ℕ → List CfgValue → Option CfgValue
find k [] = none
find k (cfg ∷ cfgs) = if same_text (key cfg.name) k then some cfg else find k cfgs

pub find_here :
    (k : List ℕ) (cfg : CfgValue) (cfgs : List CfgValue)
    → same_text (key cfg.name) k ≡ true
    → find k (cfg ∷ cfgs) ≡ some cfg
unfolding find
find_here k cfg cfgs e = rw e

pub find_there :
    (k : List ℕ) (cfg : CfgValue) (cfgs : List CfgValue)
    → same_text (key cfg.name) k ≡ false
    → find k (cfg ∷ cfgs) ≡ find k cfgs
unfolding find
find_there k cfg cfgs e = rw e

pub find-append :
    (k : List ℕ) (xs ys : List CfgValue)
    → find k (xs ++ ys) ≡ elim (find k xs) [ none ↦ find k ys | some cfg ↦ some cfg ]
unfolding find
find-append k [] ys = refl
find-append k (x ∷ xs) ys = elim (Bool-cases (same_text (key x.name) k)) [
  | inl e ↦ rw e
  | inr e ↦ rw (e, find-append k xs ys)
]

-- Where the first value of a name is.
pub record Place (name : List ℕ) (i : ℕ) (cfgs : List CfgValue) : Type 0 where
  pub before : List CfgValue
  pub cfg : CfgValue
  pub after : List CfgValue
  pub parts : cfgs ≡ before ++ cfg ∷ after
  pub same : same_text (key cfg.name) (key name) ≡ true
  pub new : find (key name) before ≡ none

here :
    (name : List ℕ) (i : ℕ) (cfg : CfgValue) (cfgs : List CfgValue)
    → same_text (key cfg.name) (key name) ≡ true
    → ref_from i name none (cfg ∷ cfgs) ≡ some i
unfolding ref_from matches
here name i cfg cfgs e = rw e

there :
    (name : List ℕ) (i : ℕ) (cfg : CfgValue) (cfgs : List CfgValue)
    → same_text (key cfg.name) (key name) ≡ false
    → ref_from i name none (cfg ∷ cfgs) ≡ ref_from (i + 1) name none cfgs
unfolding ref_from matches
there name i cfg cfgs e = rw e

none_empty : (i : ℕ) (name : List ℕ) → ref_from i name none [] ≡ none
unfolding ref_from
none_empty i name = refl

find_empty : (k : List ℕ) → find k [] ≡ none
unfolding find
find_empty k = refl

-- No value of the name.
pub record Absent (name : List ℕ) (i : ℕ) (cfgs : List CfgValue) : Type 0 where
  pub not_found : ref_from i name none cfgs ≡ none
  pub unknown : find (key name) cfgs ≡ none

pub ref_from_lem :
    (name : List ℕ) (i : ℕ) (cfgs : List CfgValue) → Absent name i cfgs ⊎ Place name i cfgs
ref_from_lem name i [] =
    inl (record { not_found = none_empty i name; unknown = find_empty (key name) })
ref_from_lem name i (cfg ∷ cfgs) = elim (Bool-cases (same_text (key cfg.name) (key name))) [
  | inl e ↦ inr record {
    before = [];
    cfg = cfg;
    after = cfgs;
    parts = refl;
    same = e;
    new = find_empty (key name);
  }
  | inr e ↦ elim (ref_from_lem name (i + 1) cfgs) [
    | inl gone ↦ inl record {
      not_found = there name i cfg cfgs e ∙ gone.not_found;
      unknown = find_there (key name) cfg cfgs e ∙ gone.unknown;
    }
    | inr at ↦ inr record {
      before = cfg ∷ at.before;
      cfg = at.cfg;
      after = at.after;
      parts = ap (λ l. cfg ∷ l) at.parts;
      same = at.same;
      new = find_there (key name) cfg at.before e ∙ at.new;
    }
  ]
]

known_at :
    {o : Option CfgValue} {n : Option ℕ} {i : ℕ} (x : CfgValue) → o ≡ some x → o ≡ none → n ≡ some i
known_at x e f = absurd (ground (arith, sym e ∙ f))

pub ref_from_at :
    (name : List ℕ) (i : ℕ) (before after : List CfgValue) (cfg : CfgValue)
    → find (key name) before ≡ none
    → same_text (key cfg.name) (key name) ≡ true
    → ref_from i name none (before ++ cfg ∷ after) ≡ some (i + length before)
unfolding find
ref_from_at name i [] after cfg new e = here name i cfg after e ∙ ap some (omega arith)
ref_from_at name i (x ∷ before) after cfg new e =
    elim (Bool-cases (same_text (key x.name) (key name))) [
      | inl e1 ↦ known_at x (find_here (key name) x before e1) new
      | inr e1 ↦
          there name i x (before ++ cfg ∷ after) e1
          ∙ ref_from_at name (i + 1) before after cfg
              (sym (find_there (key name) x before e1) ∙ new) e
          ∙ ap some (omega arith)
    ]

pub find_at :
    (name : List ℕ) (cfgs : List CfgValue) (at : Place name 0 cfgs)
    → find (key name) cfgs ≡ some at.cfg
find_at name cfgs at =
    ap (find (key name)) at.parts
    ∙ find-append (key name) at.before (at.cfg ∷ at.after)
    ∙ rw (at.new, find_here (key name) at.cfg at.after at.same)

pub ref_at :
    (name : List ℕ) (cfgs : List CfgValue) (at : Place name 0 cfgs)
    → ref_of name none cfgs ≡ some (length at.before)
unfolding ref_of
ref_at name cfgs at =
    ap (ref_from 0 name none) at.parts
    ∙ ref_from_at name 0 at.before at.after at.cfg at.new at.same
    ∙ ap some (omega arith)

-- The names of the vector begin with those of the earlier one.
pub data Extends : List CfgValue → List CfgValue → Type 0 where
  grown : (added : List CfgValue) → Extends [] added
  kept :
      (old new : CfgValue) (olds news : List CfgValue)
      → new.name ≡ old.name
      → new.type ≡ old.type
      → Extends olds news
      → Extends (old ∷ olds) (new ∷ news)

pub Extends_refl : (cfgs : List CfgValue) → Extends cfgs cfgs
Extends_refl [] = grown []
Extends_refl (cfg ∷ cfgs) = kept cfg cfg cfgs cfgs refl refl (Extends_refl cfgs)

pub Extends-append : (cfgs added : List CfgValue) → Extends cfgs (cfgs ++ added)
Extends-append [] added = grown added
Extends-append (cfg ∷ cfgs) added =
    kept cfg cfg cfgs (cfgs ++ added) refl refl (Extends-append cfgs added)

pub Extends_replaced :
    (before after : List CfgValue) (old new : CfgValue)
    → new.name ≡ old.name
    → new.type ≡ old.type
    → Extends (before ++ old ∷ after) (before ++ new ∷ after)
Extends_replaced [] after old new e f = kept old new after after e f (Extends_refl after)
Extends_replaced (x ∷ before) after old new e f =
    kept x x (before ++ old ∷ after) (before ++ new ∷ after) refl refl
      (Extends_replaced before after old new e f)

-- What is found stays where it is.
pub ref_from_extended :
    (name : List ℕ) (i : ℕ) {r : ℕ} (olds news : List CfgValue)
    → Extends olds news
    → ref_from i name none olds ≡ some r
    → ref_from i name none news ≡ some r
ref_from_extended name i [] news (grown _) e = absurd (none-ne-some _ (sym (none_empty i name) ∙ e))
ref_from_extended name i (old ∷ olds) [] more e = elim more [ ]
ref_from_extended name i (old ∷ olds) (new ∷ news) (kept _ _ _ _ same _ rest) e =
    elim (Bool-cases (same_text (key old.name) (key name))) [
      | inl yes1 ↦
          here name i new news (ap (λ n. same_text (key n) (key name)) same ∙ yes1)
          ∙ sym (here name i old olds yes1)
          ∙ e
      | inr no1 ↦
          there name i new news (ap (λ n. same_text (key n) (key name)) same ∙ no1)
          ∙ ref_from_extended name (i + 1) olds news rest (sym (there name i old olds no1) ∙ e)
    ]
