-- ===== src/ConfigSync/Effects.antt =====
-- What the statements do to the row of one ID.
use icingadb.Prelude.{
  contains, String, str_eq, eq_iff, eq_refl, List, [], ◌∷◌, map, Bool, true, false, ◌||◌, Option,
  none, some, is_some, if◌then◌else◌, ◌≡◌, refl, ap, ◌∙◌, subst, Bool-cases, Option-cases, inl, inr,
}
use icingadb.Prelude.Maps.{StringMap}
use icingadb.Prelude.Interleavings.{effects, IsNeutral, AllNeutral, effects-neutral}
use icingadb.Delta.{Entity}
use icingadb.ConfigSync.{Statement, create, upsert, remove, is_duplicate, execute, perform}

-- The row of an ID, if there is one; `none` is that a row would be created that is there already.
abbrev pub Cell : Type 0 → Type 0
Cell E = Option (Option E)

module _ {E : Type 0} ⦃k : Entity E⦄ where
  abbrev on_create : E → Cell E → Cell E
  on_create e none = none
  on_create e (some none) = some (some e)
  on_create e (some (some x)) = none

  abbrev on_write : Option E → Cell E → Cell E
  on_write o none = none
  on_write o (some x) = some o

  abbrev pub effect : String → Statement E → Cell E → Cell E
  effect i (create e) v = if str_eq (k.id e) i then on_create e v else v
  effect i (upsert e) v = if str_eq (k.id e) i then on_write (some e) v else v
  effect i (remove j) v = if str_eq j i then on_write none v else v

  effect-failed : (i : String) (s : Statement E) → effect i s none ≡ none
  effect-failed i (create e) = elim (Bool-cases (str_eq (k.id e) i)) [
    | inl h ↦ rw h refl
    | inr h ↦ rw h refl
  ]
  effect-failed i (upsert e) = elim (Bool-cases (str_eq (k.id e) i)) [
    | inl h ↦ rw h refl
    | inr h ↦ rw h refl
  ]
  effect-failed i (remove j) = elim (Bool-cases (str_eq j i)) [
    | inl h ↦ rw h refl
    | inr h ↦ rw h refl
  ]

  effects-failed : (i : String) (ss : List (Statement E)) → effects (effect i) ss none ≡ none
  effects-failed i [] = refl
  effects-failed i (s ∷ ss) = ap (effects (effect i) ss) (effect-failed i s) ∙ effects-failed i ss

  effect-execute :
      (i : String) (s : Statement E) (table : StringMap E)
      → is_duplicate s table ≡ false
      → effect i s (some (table i)) ≡ some (execute s table i)
  effect-execute i (create e) table new = elim (Bool-cases (str_eq (k.id e) i)) [
    | inl h ↦
        let is : k.id e ≡ i = (eq_iff (k.id e) i).0 h in
        rw h (by_row (table i) (subst (λ j. is_some (table j) ≡ false) is new))
    | inr h ↦ rw h refl
  ]
    where
      by_row : (o : Option E) → is_some o ≡ false → on_create e (some o) ≡ some (some e)
      by_row none absent = refl
      by_row (some x) absent = cc
  effect-execute i (upsert e) table new = elim (Bool-cases (str_eq (k.id e) i)) [
    | inl h ↦ rw h refl
    | inr h ↦ rw h refl
  ]
  effect-execute i (remove j) table new = elim (Bool-cases (str_eq j i)) [
    | inl h ↦ rw h refl
    | inr h ↦ rw h refl
  ]

  no_duplicate :
      (s : Statement E) (ss : List (Statement E)) (table : StringMap E)
      → ((i : String) → is_some (effects (effect i) ss (effect i s (some (table i)))) ≡ true)
      → is_duplicate s table ≡ false
  no_duplicate (create e) ss table good = elim (Option-cases (table (k.id e))) [
    | inl new ↦ ap is_some new
    | inr (x, there) ↦
        let clash : effect (k.id e) (create e) (some (table (k.id e))) ≡ none =
          ap (λ b. if b then on_create e (some (table (k.id e))) else some (table (k.id e)))
            (eq_refl (k.id e))
          ∙ ap (λ o. on_create e (some o)) there in
        let bad : is_some (effects (effect (k.id e)) ss none) ≡ true =
          subst (λ v. is_some (effects (effect (k.id e)) ss v) ≡ true) clash (good (k.id e)) in
        let no_row = effects-failed (k.id e) ss in cc
  ]
  no_duplicate (upsert e) ss table good = refl
  no_duplicate (remove j) ss table good = refl

  -- Where no row is created twice, all statements are carried out, and each row is as they leave it.
  pub perform-effects :
      (ss : List (Statement E)) (table : StringMap E)
      → ((i : String) → is_some (effects (effect i) ss (some (table i))) ≡ true)
      → (table' : StringMap E) × (perform ss table ≡ (table', true))
        × ((i : String) → effects (effect i) ss (some (table i)) ≡ some (table' i))
  perform-effects [] table good = (table, refl, λ i. refl)
  perform-effects (s ∷ ss) table good =
      let new = no_duplicate s ss table good in
      let step : (i : String) → effect i s (some (table i)) ≡ some (execute s table i) =
        λ i. effect-execute i s table new in
      let rest =
        perform-effects ss (execute s table)
          (λ i. subst (λ v. is_some (effects (effect i) ss v) ≡ true) (step i) (good i)) in
      (
        rest.0,
        ap (λ b. if b then (table, false) else perform ss (execute s table)) new ∙ rest.1,
        λ i. ap (effects (effect i) ss) (step i) ∙ rest.2 i,
      )

  -- A statement that writes an entity.
  pub record IsWrite (mk : E → Statement E) (before : Cell E) : Type 0 where
    pub hits : (e : E) → effect (k.id e) (mk e) before ≡ some (some e)
    pub misses : (i : String) (e : E) → str_eq (k.id e) i ≡ false → IsNeutral (effect i) (mk e)

  pub create-IsWrite : IsWrite (λ e. create e) (some none)
  create-IsWrite = record {
    hits = λ e. ap (λ b. if b then on_create e (some none) else some none) (eq_refl (k.id e));
    misses = λ i e other v. rw other refl;
  }

  pub upsert-IsWrite : (o : Option E) → IsWrite (λ e. upsert e) (some o)
  upsert-IsWrite o = record {
    hits = λ e. ap (λ b. if b then on_write (some e) (some o) else some o) (eq_refl (k.id e));
    misses = λ i e other v. rw other refl;
  }

module _ (E : Type 0) ⦃k : Entity E⦄ where
  abbrev pub removes : List String → List (Statement E)
  removes keys = map (λ (j : String). remove j) keys

  pub removes-AllNeutral :
      (i : String) (keys : List String)
      → contains i keys ≡ false
      → AllNeutral (effect i) (removes keys)
  removes-AllNeutral i [] absent = tt
  removes-AllNeutral i (j ∷ js) absent = elim (Bool-cases (str_eq j i)) [
    | inl e ↦ let bad = subst (λ x. (x || contains i js) ≡ false) e absent in cc
    | inr e ↦ (
      λ v. rw e refl,
      removes-AllNeutral i js (subst (λ x. (x || contains i js) ≡ false) e absent),
    )
  ]

  pub removes-effect :
      (i : String) (keys : List String) (o : Option E)
      → contains i keys ≡ true
      → effects (effect i) (removes keys) (some o) ≡ some none
  removes-effect i [] o there = cc
  removes-effect i (j ∷ js) o there =
      let step : Bool → Cell E =
        λ b. effects (effect i) (removes js) (if b then some none else some o) in
      elim (Bool-cases (str_eq j i)) [
        | inl e ↦ elim (Bool-cases (contains i js)) [
          | inl again ↦ ap step e ∙ removes-effect i js none again
          | inr once ↦
              ap step e
              ∙ effects-neutral (effect i) (removes js) (some none) (removes-AllNeutral i js once)
        ]
        | inr e ↦
            ap step e ∙ removes-effect i js o (subst (λ x. (x || contains i js) ≡ true) e there)
      ]
