-- ===== src/ConfigSync/Keyed.antt =====
-- What the statements for a map's keys do to the row of one ID.
use icingadb.Prelude.{
  contains, String, str_eq, eq_iff, eq_refl, All, List, [], ◌∷◌, map, Bool, true, false, ◌||◌,
  Option, none, some, is_some, ◌≡◌, refl, sym, ap, ◌∙◌, subst, Bool-cases, inl, inr,
}
use icingadb.Prelude.Maps.{StringMap}
use icingadb.Prelude.Interleavings.{effects, AllNeutral, effects-neutral}
use icingadb.Delta.{Entity}
use icingadb.ConfigSync.{Statement, ids}
use icingadb.ConfigSync.Prepared.{AllHad, add_some, collect, values-collect}
use icingadb.ConfigSync.Effects.{Cell, effect, IsWrite}

-- No key comes twice.
abbrev pub NoTwice : List String → Type 0
NoTwice [] = Unit
NoTwice (i ∷ is) = (contains i is ≡ false) × NoTwice is

-- A map's keys, in any order.
pub record KeysOf {E : Type 0} (m : StringMap E) (keys : List String) : Type 0 where
  pub exact : (i : String) → contains i keys ≡ is_some (m i)
  pub once : NoTwice keys

pub AllHad-contains :
    {E : Type 0} (source : StringMap E) (i : String) (keys : List String)
    → AllHad source keys
    → contains i keys ≡ true
    → is_some (source i) ≡ true
AllHad-contains source i [] all there = cc
AllHad-contains source i (j ∷ js) all there = elim (Bool-cases (str_eq j i)) [
  | inl e ↦ subst (λ x. is_some (source x) ≡ true) ((eq_iff j i).0 e) all.0
  | inr e ↦ AllHad-contains source i js all.1 (subst (λ x. (x || contains i js) ≡ true) e there)
]

all_of :
    (P : String → Type 0) (keys : List String)
    → ((i : String) → contains i keys ≡ true → P i)
    → All P keys
all_of P [] its = tt
all_of P (j ∷ js) its = (
  its j (ap (λ b. b || contains j js) (eq_refl j)),
  all_of P js (λ i there. its i (either i (str_eq j i) there)),
)
  where
    either : (i : String) (b : Bool) → contains i js ≡ true → (b || contains i js) ≡ true
    either i true there = refl
    either i false there = there

collect-ids :
    {E : Type 0} ⦃k : Entity E⦄ (m : StringMap E) (keys : List String)
    → ((i : String) (e : E) → m i ≡ some e → k.id e ≡ i)
    → AllHad m keys
    → map k.id (collect m keys) ≡ keys
collect-ids {E} ⦃k⦄ m [] keyed all = refl
collect-ids {E} ⦃k⦄ m (i ∷ is) keyed all = by_entity (m i) refl all.0 (collect-ids m is keyed all.1)
  where
    by_entity :
        (o : Option E)
        → m i ≡ o
        → is_some o ≡ true
        → map k.id (collect m is) ≡ is
        → map k.id (add_some o (collect m is)) ≡ i ∷ is
    by_entity none from bad ih = cc
    by_entity (some e) from there ih =
        ap (λ j. j ∷ map k.id (collect m is)) (keyed i e from) ∙ ap (λ js. i ∷ js) ih

-- The entities of a map that is keyed by their IDs have its keys as IDs.
pub ids-keys :
    {E : Type 0} ⦃k : Entity E⦄ (m : StringMap E) (keys : List String)
    → ((i : String) (e : E) → m i ≡ some e → k.id e ≡ i)
    → KeysOf m keys
    → ids m keys ≡ keys
ids-keys ⦃k⦄ m keys keyed given =
    ap (map k.id) (values-collect m keys)
    ∙ collect-ids m keys keyed
        (all_of (λ i. is_some (m i) ≡ true) keys (λ i there. sym (given.exact i) ∙ there))

module _ {E : Type 0} ⦃k : Entity E⦄ (source : StringMap E)
    (keyed : (i : String) (e : E) → source i ≡ some e → k.id e ≡ i) (mk : E → Statement E)
    (before : Cell E) (is_write : IsWrite mk before) where
  abbrev pub of_keys : List String → List (Statement E)
  of_keys keys = map mk (collect source keys)

  pub of_keys-AllNeutral :
      (i : String) (keys : List String)
      → contains i keys ≡ false
      → AllNeutral (effect i) (of_keys keys)
  of_keys-AllNeutral i [] absent = tt
  of_keys-AllNeutral i (j ∷ js) absent = elim (Bool-cases (str_eq j i)) [
    | inl e ↦ let bad = subst (λ x. (x || contains i js) ≡ false) e absent in cc
    | inr e ↦
        by_entity e (source j) refl
          (of_keys-AllNeutral i js (subst (λ x. (x || contains i js) ≡ false) e absent))
  ]
    where
      by_entity :
          str_eq j i ≡ false
          → (o : Option E) → source j ≡ o
          → AllNeutral (effect i) (of_keys js)
          → AllNeutral (effect i) (map mk (add_some o (collect source js)))
      by_entity e none is rest = rest
      by_entity e (some x) is rest =
          (is_write.misses i x (subst (λ y. str_eq y i ≡ false) (sym (keyed j x is)) e), rest)

  -- A key's entity is written once.
  pub of_keys-effect :
      (i : String) (keys : List String)
      → NoTwice keys
      → AllHad source keys
      → contains i keys ≡ true
      → effects (effect i) (of_keys keys) before ≡ some (source i)
  of_keys-effect i [] once all there = cc
  of_keys-effect i (j ∷ js) once all there = elim (Bool-cases (str_eq j i)) [
    | inl e ↦
        let is : j ≡ i = (eq_iff j i).0 e in
        let no_more : contains i js ≡ false = subst (λ x. contains x js ≡ false) is once.0 in
        here is (source j) refl all.0 (of_keys-AllNeutral i js no_more)
    | inr e ↦
        later e (source j) refl all.0
          (of_keys-effect i js once.1 all.1 (subst (λ x. (x || contains i js) ≡ true) e there))
  ]
    where
      here :
          j ≡ i
          → (o : Option E) → source j ≡ o
          → is_some o ≡ true
          → AllNeutral (effect i) (of_keys js)
          → effects (effect i) (map mk (add_some o (collect source js))) before ≡ some (source i)
      here is none from bad rest = cc
      here is (some x) from yes_there rest =
          let hit : effect i (mk x) before ≡ some (some x) =
            subst (λ y. effect y (mk x) before ≡ some (some x)) (keyed j x from ∙ is)
              (is_write.hits x) in
          ap (effects (effect i) (of_keys js)) hit
          ∙ effects-neutral (effect i) (of_keys js) (some (some x)) rest
          ∙ ap (λ (o : Option E). some o) (sym from ∙ ap source is)

      later :
          str_eq j i ≡ false
          → (o : Option E) → source j ≡ o
          → is_some o ≡ true
          → effects (effect i) (of_keys js) before ≡ some (source i)
          → effects (effect i) (map mk (add_some o (collect source js))) before ≡ some (source i)
      later e none from bad rest = cc
      later e (some x) from yes_there rest =
          ap (effects (effect i) (of_keys js))
            (is_write.misses i x (subst (λ y. str_eq y i ≡ false) (sym (keyed j x from)) e) before)
          ∙ rest
