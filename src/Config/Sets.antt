-- ===== src/Config/Sets.antt =====
-- What the setters do to the abstract map, and to the cells that remember a place.
use event_server.Base.{
  ℕ, ◌≡◌, refl, sym, ap, subst, ◌∙◌, true, false, inl, inr, Option, none, some, List, [], ◌∷◌, ◌++◌,
  arith, Bool-cases, append-nil, if◌then◌else◌, length, get_elem?,
}
use event_server.Base.Memory.{store, store_at, get_at}
use event_server.Config.{
  CfgValue, CfgType, RefCell, same_text, key, ref_from, ref_of, resolve, low, overwrite, set_ref,
  set_from, set_value,
}
use event_server.Config.Found.{
  same_text_refl, same_text→≡, find, find_here, find_there, find-append, find_at, ref_at, Extends,
  Extends-append, Extends_replaced, ref_from_lem, ref_from_at,
}

-- What a cell that is kept for `name` may hold: nothing yet, or the place of `name`.
unfoldable pub Refers : List ℕ → RefCell → List CfgValue → Type 0
Refers name none cfgs = Unit
Refers name (some none) cfgs = Unit
Refers name (some (some r)) cfgs = ref_of name none cfgs ≡ some r

-- The value that a setter leaves in place of `old`, and what it returns.
unfoldable pub after_set : ℕ → CfgType → ℕ → ℕ → List ℕ → ℕ → Option CfgValue → CfgValue
after_set raw type width first name v none = record {
  word = overwrite first v raw;
  alias = none;
  name = name;
  type = type;
  flag = 0;
}
after_set raw type width first name v (some cfg) = record cfg { word = overwrite width v cfg.word }

unfoldable pub before_set : ℕ → ℕ → Option CfgValue → ℕ
before_set width v none = v
before_set width v (some cfg) = low width cfg.word

pub told : RefCell → Option ℕ → RefCell
told none ref = none
told (some r) ref = some ref

pub resolve_lem :
    (name : List ℕ) (cell : RefCell) (cfgs : List CfgValue)
    → Refers name cell cfgs
    → resolve name none cell cfgs ≡ (ref_of name none cfgs, told cell (ref_of name none cfgs))
unfolding resolve told Refers
resolve_lem name none cfgs ok = refl
resolve_lem name (some none) cfgs ok = refl
resolve_lem name (some (some r)) cfgs ok = rw ok

-- A place that is replaced by a value of the same name, or added at the end.
module _ (name : List ℕ) (before after : List CfgValue) (cfg : CfgValue)
    (new : find (key name) before ≡ none) (same : same_text (key cfg.name) (key name) ≡ true) where
  find_same :
      (k : List ℕ) → same_text (key name) k ≡ true → find k (before ++ cfg ∷ after) ≡ some cfg
  find_same k e =
      ap (λ l. find l (before ++ cfg ∷ after)) (sym (same_text→≡ (key name) k e))
      ∙ find-append (key name) before (cfg ∷ after)
      ∙ rw (new, find_here (key name) cfg after same)

  find_other :
      (k : List ℕ)
      → same_text (key name) k ≡ false
      → find k (before ++ cfg ∷ after) ≡ find k (before ++ after)
  find_other k e =
      find-append k before (cfg ∷ after)
      ∙ ap (λ o. elim (find k before) [ none ↦ o | some c ↦ some c ])
          (find_there k cfg after
            (ap (λ l. same_text l k) (same_text→≡ (key cfg.name) (key name) same) ∙ e))
      ∙ sym (find-append k before after)

  find_put :
      (cfgs : List CfgValue)
      → ((k : List ℕ) → same_text (key name) k ≡ false → find k (before ++ after) ≡ find k cfgs)
      → (k : List ℕ)
      → find k (before ++ cfg ∷ after) ≡ (if same_text (key name) k then some cfg else find k cfgs)
  find_put cfgs rest k = elim (Bool-cases (same_text (key name) k)) [
    | inl e ↦ rw e (find_same k e)
    | inr e ↦ rw e (find_other k e ∙ rest k e)
  ]

  Refers-told :
      (cell : RefCell) (ref : Option ℕ)
      → ref ≡ some (length before)
      → Refers name (told cell ref) (before ++ cfg ∷ after)
  unfolding Refers told ref_of
  Refers-told none ref e = tt
  Refers-told (some r) none e = tt
  Refers-told (some r) (some i) e =
      ref_from_at name 0 before after cfg new same ∙ ap some (omega arith) ∙ sym e

set_ref-told : (cell : RefCell) (n : ℕ) → set_ref (told cell none) n ≡ told cell (some n)
unfolding told
set_ref-told none n = refl
set_ref-told (some r) n = refl

module _ (raw : ℕ) (type : CfgType) (width first : ℕ) (name : List ℕ) (cell : RefCell) (v : ℕ)
    (cfgs : List CfgValue) (ok : Refers name cell cfgs) where
  new_value : CfgValue
  new_value = after_set raw type width first name v none

  set_none :
      ref_of name none cfgs ≡ none
      → set_value raw type width first name cell v cfgs
        ≡ some (v, told cell (some (length cfgs)), cfgs ++ new_value ∷ [])
  unfolding set_value set_from new_value after_set
  set_none e = rw (resolve_lem name cell cfgs ok, e, set_ref-told cell (length cfgs))

  set_some :
      {r : ℕ} {cfg : CfgValue} {cfgs1 : List CfgValue}
      → ref_of name none cfgs ≡ some r
      → get_elem? cfgs r ≡ some cfg
      → store r (after_set raw type width first name v (some cfg) ∷ []) cfgs ≡ some cfgs1
      → set_value raw type width first name cell v cfgs
        ≡ some (low width cfg.word, told cell (some r), cfgs1)
  unfolding set_value set_from after_set
  set_some e f g = rw (resolve_lem name cell cfgs ok, e, f, g)

  new_value-same : same_text (key new_value.name) (key name) ≡ true
  unfolding new_value after_set
  new_value-same = same_text_refl (key name)

  of_ref : (l : List CfgValue) {o : Option ℕ} → ref_from 0 name none l ≡ o → ref_of name none l ≡ o
  unfolding ref_of
  of_ref l e = e

  -- With a cell that is kept for the name, a setter succeeds whether or not the vector has a value of
  -- the name. It returns what was there (or the new value), and changes the map at this name alone.
  -- The cell refers to the name afterwards, and the values that were there keep their names, their
  -- types and their places.
  pub set_value_lem :
      (cell1 : RefCell) × (cfgs1 : List CfgValue) × (set_value raw type width first name cell v cfgs
        ≡ some (before_set width v (find (key name) cfgs), cell1, cfgs1))
      × Refers name cell1 cfgs1
      × Extends cfgs cfgs1
      × ((k : List ℕ)
          → find k cfgs1 ≡ (
              if same_text (key name) k
              then some (after_set raw type width first name v (find (key name) cfgs))
              else find k cfgs))
  unfolding before_set new_value after_set
  set_value_lem = elim (ref_from_lem name 0 cfgs) [
    | inl gone ↦ (
      told cell (some (length cfgs)),
      cfgs ++ new_value ∷ [],
      set_none (of_ref cfgs gone.not_found) ∙ rw gone.unknown refl,
      Refers-told name cfgs [] new_value gone.unknown new_value-same cell (some (length cfgs)) refl,
      Extends-append cfgs (new_value ∷ []),
      λ k.
          find_put name cfgs [] new_value gone.unknown new_value-same cfgs
            (λ l _. ap (find l) (append-nil cfgs)) k
          ∙ rw gone.unknown refl,
    )
    | inr at ↦
        let new : CfgValue = after_set raw type width first name v (some at.cfg) in
        let before : List CfgValue = at.before in
        let known : find (key name) cfgs ≡ some at.cfg = find_at name cfgs at in
        (
          told cell (some (length before)),
          before ++ new ∷ at.after,
          set_some (ref_at name cfgs at)
                (ap (λ l. get_elem? l (length before)) at.parts ∙ get_at before at.after at.cfg)
                (ap (store (length before) (new ∷ [])) at.parts
                  ∙ store_at before at.after at.cfg new)
              ∙ rw known refl,
          Refers-told name before at.after new at.new at.same cell (some (length before)) refl,
          subst (λ l. Extends l (before ++ new ∷ at.after)) (sym at.parts)
              (Extends_replaced before at.after at.cfg new refl refl),
          λ k.
              find_put name before at.after new at.new at.same cfgs
                (λ l no_match.
                  sym (find_other name before at.after at.cfg at.new at.same l no_match)
                  ∙ ap (find l) (sym at.parts))
                k
              ∙ rw known refl,
        )
  ]
