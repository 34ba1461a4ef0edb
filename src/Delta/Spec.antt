-- ===== src/Delta/Spec.antt =====
-- What the delta of two collections of entities is, without a word on how it is computed.
use icingadb.Prelude.{
  String, List, [], ◌∷◌, Option, none, some, Bool, true, false, ◌≡◌, ap, ◌∙◌, ◌⊎◌, arith, str_eq,
  eq_iff, is_some, if◌then◌else◌,
}
use icingadb.Prelude.Maps.{StringMap}
use icingadb.Delta.{
  Entity, Recv, recv_actual, recv_desired, end_actual, end_desired, ctx_done, entities_equal,
  equal_by_interface,
}

module _ {E : Type 0} where
  -- What a schedule delivers on a channel that is open, before it ends: newest first, in front of
  -- what is there.
  abbrev pub sent_actual : Bool → List E → List (Recv E) → List E
  sent_actual is_open have [] = have
  sent_actual is_open have (recv_actual a ∷ rs) =
      sent_actual is_open (if is_open then a ∷ have else have) rs
  sent_actual is_open have (end_actual ∷ rs) = sent_actual false have rs
  sent_actual is_open have (_ ∷ rs) = sent_actual is_open have rs

  abbrev pub sent_desired : Bool → List E → List (Recv E) → List E
  sent_desired is_open want [] = want
  sent_desired is_open want (recv_desired d ∷ rs) =
      sent_desired is_open (if is_open then d ∷ want else want) rs
  sent_desired is_open want (end_desired ∷ rs) = sent_desired false want rs
  sent_desired is_open want (_ ∷ rs) = sent_desired is_open want rs

  -- The schedule ends the channel.
  abbrev pub ends_actual : List (Recv E) → Bool
  ends_actual [] = false
  ends_actual (end_actual ∷ rs) = true
  ends_actual (_ ∷ rs) = ends_actual rs

  abbrev pub ends_desired : List (Recv E) → Bool
  ends_desired [] = false
  ends_desired (end_desired ∷ rs) = true
  ends_desired (_ ∷ rs) = ends_desired rs

  -- The schedule has a `ctx.Done()`.
  abbrev pub is_cancelled : List (Recv E) → Bool
  is_cancelled [] = false
  is_cancelled (ctx_done ∷ rs) = true
  is_cancelled (_ ∷ rs) = is_cancelled rs

module _ {E : Type 0} ⦃k : Entity E⦄ where
  abbrev pub find : String → List E → Option E
  find i [] = none
  find i (e ∷ es) = if str_eq (k.id e) i then some e else find i es

  -- No two entities have the same id.
  abbrev pub Distinct : List E → Type 0
  Distinct [] = Unit
  Distinct (e ∷ es) = (find (k.id e) es ≡ none) × Distinct es

  -- The entities of `es` whose id none of `others` has.
  abbrev pub only : List E → List E → StringMap E
  only es others i = if is_some (find i others) then none else find i es

  abbrev pub if_changed : Option Bool → E → Option E
  if_changed (some false) d = some d
  if_changed (some true) d = none
  if_changed none d = none

  abbrev pub changed_pair : Option E → Option E → Option E
  changed_pair none o = none
  changed_pair (some a) none = none
  changed_pair (some a) (some d) = if_changed (entities_equal a d) d

  -- The desired version of the entities that both have, and that differ.
  abbrev pub changed : List E → List E → StringMap E
  changed actuals desireds i = changed_pair (find i actuals) (find i desireds)

  abbrev pub unit_of : Option E → Option (Unit {0})
  unit_of none = none
  unit_of (some e) = some tt

  pub find-id : (i : String) (es : List E) (e : E) → find i es ≡ some e → k.id e ≡ i
  find-id i [] e h = ground arith
  find-id i (x ∷ xs) e h = ground (arith, eq_iff (k.id x) i, find-id i xs e)

  -- Entities with checksums are compared by them.
  pub entities_equal-checksums :
      (a d : E) (x y : String)
      → k.checksum a ≡ some x
      → k.checksum d ≡ some y
      → entities_equal a d ≡ some (str_eq x y)
  unfolding entities_equal
  entities_equal-checksums a d x y ea ed =
      ap
        (λ o. elim o [
          | none ↦ equal_by_interface a d
          | some ca ↦ elim (k.checksum d) [
            | none ↦ equal_by_interface a d
            | some cb ↦ some (str_eq ca cb)
          ]
        ])
        ea
      ∙ ap (λ o. elim o [ none ↦ equal_by_interface a d | some cb ↦ some (str_eq x cb) ]) ed

-- Every two entities can be compared: `entitiesEqual` does not panic.
abbrev pub IsComparable : {E : Type 0} → Entity E → Type 0
IsComparable {E} k =
    (a d : E) → (entities_equal ⦃k = k⦄ a d ≡ some true) ⊎ (entities_equal ⦃k = k⦄ a d ≡ some false)
