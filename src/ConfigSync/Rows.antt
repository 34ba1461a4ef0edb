-- ===== src/ConfigSync/Rows.antt =====
-- The row of an ID that a synchronisation leaves.
use icingadb.Prelude.{
  String, str_eq, eq_iff, List, Bool, true, false, Option, none, some, is_some, if◌then◌else◌, ◌≡◌,
  refl, sym, ap, ◌∙◌,
}
use icingadb.Prelude.Maps.{StringMap}
use icingadb.Prelude.Interleavings.{effects}
use icingadb.Delta.{Entity, entities_equal}
use icingadb.Delta.Spec.{entities_equal-checksums, changed, changed_pair, if_changed}
use icingadb.Delta.Invariant.{UpdateIs}
use icingadb.ConfigSync.{Statement, Outside, updates_of}
use icingadb.ConfigSync.Effects.{effect}

pub record IsCalm (out : Outside) : Type 0 where
  pub completes : out.stops ≡ none

module _ {E : Type 0} ⦃k : Entity E⦄ where
  abbrev pub row_checksum : Option E → Option (Option String)
  row_checksum none = none
  row_checksum (some e) = some (k.checksum e)

  -- The row of an ID, for what is actual and desired, what is to be updated and what Redis has for it, and the row
  -- before. With checksums it has the desired one; without, a new row is the desired entity, an updated one what
  -- Redis has, and any other is as it was.
  abbrev pub Follows :
      Bool → Option E → Option E → Option E → Option E → Option E → Option E → Type 0
  Follows with_checksum actual none update redis before row = row ≡ none
  Follows true actual (some d) update redis before row = row_checksum row ≡ some (k.checksum d)
  Follows false none (some d) update redis before row = row ≡ some d
  Follows false (some a) (some d) none redis before row = (is_some row ≡ true) × (row ≡ before)
  Follows false (some a) (some d) (some u) redis before row = (is_some row ≡ true) × (row ≡ redis)

  -- What the delta was told of a row.
  abbrev pub Reads : Bool → Option E → Option E → Type 0
  Reads with_checksum actual row =
      (is_some actual ≡ is_some row)
      × (with_checksum ≡ true → row_checksum actual ≡ row_checksum row)

  -- The entities to update, where the subject tracks them.
  abbrev pub to_update : Bool → List E → List E → StringMap E
  to_update tracked have want i = if tracked then changed have want i else none

  pub updates_of-is :
      (tracked : Bool) (have want : List E) (u : Option (StringMap E))
      → UpdateIs tracked have want u
      → (i : String) → updates_of u i ≡ to_update tracked have want i
  updates_of-is true have want none h i = absurd h
  updates_of-is true have want (some u) h i = h i
  updates_of-is false have want none h i = refl
  updates_of-is false have want (some u) h i = absurd h

  pub no_row : (o : Option E) → false ≡ is_some o → o ≡ none
  no_row none e = refl
  no_row (some x) e = cc

  if_changed-same : (o : Option Bool) (d x : E) → if_changed o d ≡ some x → x ≡ d
  if_changed-same none d x h = cc
  if_changed-same (some true) d x h = cc
  if_changed-same (some false) d x h =
      ap (λ (o : Option E). elim o [ none ↦ d | some y ↦ y ]) (sym h)

  -- What is to be updated is desired.
  pub update-desired :
      (tracked : Bool) (a d x : E)
      → (if tracked then changed_pair (some a) (some d) else none) ≡ some x
      → x ≡ d
  update-desired true a d x h = if_changed-same (entities_equal a d) d x h
  update-desired false a d x h = cc

  equal_checksums :
      (a d : E) (x y : Option String)
      → k.checksum a ≡ x
      → k.checksum d ≡ y
      → is_some x ≡ true
      → is_some y ≡ true
      → changed_pair (some a) (some d) ≡ none
      → k.checksum a ≡ k.checksum d
  equal_checksums a d none y ea ed bad h same = cc
  equal_checksums a d (some x) none ea ed h bad same = cc
  equal_checksums a d (some x) (some y) ea ed h h' same =
      by_test (str_eq x y) refl
        (sym (ap (λ o. if_changed o d) (entities_equal-checksums a d x y ea ed)) ∙ same)
    where
      by_test :
          (b : Bool) → str_eq x y ≡ b → if_changed (some b) d ≡ none → k.checksum a ≡ k.checksum d
      by_test true e h = ea ∙ ap (λ (z : String). some z) ((eq_iff x y).0 e) ∙ sym ed
      by_test false e h = cc

  -- Entities with checksums that are not to be updated have the same one.
  pub unchanged-checksum :
      (tracked : Bool) (a d : E)
      → tracked ≡ true
      → is_some (k.checksum a) ≡ true
      → is_some (k.checksum d) ≡ true
      → (if tracked then changed_pair (some a) (some d) else none) ≡ none
      → k.checksum a ≡ k.checksum d
  unchanged-checksum true a d tracks h h' same =
      equal_checksums a d (k.checksum a) (k.checksum d) refl refl h h' same
  unchanged-checksum false a d tracks h h' same = cc

-- The row that statements leave for an ID, and that it is right.
pub record Ends {E : Type 0} ⦃k : Entity E⦄ (ss : List (Statement E)) (i : String)
    (before : Option E) (IsRight : Option E → Type 0) : Type 0 where
  pub row : Option E
  pub is_row : effects (effect i) ss (some before) ≡ some row
  pub right : IsRight row
