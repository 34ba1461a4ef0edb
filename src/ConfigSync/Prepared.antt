-- ===== src/ConfigSync/Prepared.antt =====
-- The entities that are written, by their keys.
use icingadb.Prelude.{
  String, List, [], ◌∷◌, All, Bool, true, false, Option, none, some, is_some, if◌then◌else◌, ◌≡◌,
  refl, sym, ap, ◌∙◌, Bool-cases, Option-cases, inl, inr,
}
use icingadb.Prelude.Maps.{StringMap}
use icingadb.Delta.{Entity}
use icingadb.ConfigSync.{
  Codec, with_id, create_entity, checksum_from, checked, hm_yield, next_entity, entities, values,
  new_entities,
}

-- What the operations on an entity promise.
pub record IsCodec {E V : Type 0} (k : Entity E) (codec : Codec E V) : Type 0 where
  pub id_set : (i : String) (e : E) → codec.is_id i ≡ true → k.id (codec.set_id i e) ≡ i
  pub checksum_set :
      (c : String) (e e' : E)
      → codec.set_checksum c e ≡ some e'
      → (k.id e' ≡ k.id e) × (k.checksum e' ≡ some c)

module _ {E : Type 0} where
  abbrev pub add_some : Option E → List E → List E
  add_some none es = es
  add_some (some e) es = e ∷ es

  -- What a source has for the keys.
  abbrev pub collect : StringMap E → List String → List E
  collect source [] = []
  collect source (i ∷ is) = add_some (source i) (collect source is)

  abbrev pub AllHad : StringMap E → List String → Type 0
  AllHad source = All (λ i. is_some (source i) ≡ true)

  pub values-collect : (m : StringMap E) (keys : List String) → values m keys ≡ collect m keys
  values-collect m [] = refl
  values-collect m (i ∷ is) = by_value (m i) (values-collect m is)
    where
      by_value :
          (o : Option E)
          → values m is ≡ collect m is
          → (elim o [ none ↦ values m is | some e ↦ e ∷ values m is ]) ≡ add_some o (collect m is)
      by_value none ih = ih
      by_value (some e) ih = ap (λ es. e ∷ es) ih

module _ {E V : Type 0} ⦃k : Entity E⦄ (codec : Codec E V) (config : String → Option V) where
  abbrev pub served_with : Bool → StringMap E → String → Option V → Option E
  served_with w checksums i none = none
  served_with w checksums i (some v) = checked codec w checksums (create_entity codec i v)

  -- The entity that Redis has for a key, if there is no error.
  abbrev pub served : Bool → StringMap E → StringMap E
  served w checksums i = served_with w checksums i (config i)

  -- The entity that is created for a key.
  abbrev pub source : Bool → StringMap E → StringMap E
  source true m = served true m
  source false m = m

  pub entities-served :
      (w : Bool) (m : StringMap E) (keys : List String)
      → AllHad (served w m) keys
      → entities codec w m (hm_yield codec config keys) ≡ (collect (served w m) keys, true)
  entities-served w m [] all = refl
  entities-served w m (i ∷ is) all = by_value (entities-served w m is all.1) (config i) all.0
    where
      by_entity :
          (o : Option E)
          → is_some o ≡ true
          → next_entity codec o (collect (served w m) is, true)
            ≡ (add_some o (collect (served w m) is), true)
      by_entity none bad = cc
      by_entity (some e) there = refl

      by_value :
          entities codec w m (hm_yield codec config is) ≡ (collect (served w m) is, true)
          → (o : Option V) → is_some (served_with w m i o) ≡ true
          → entities codec w m (elim o [
            | none ↦ hm_yield codec config is
            | some v ↦ (i, v) ∷ hm_yield codec config is
          ])
            ≡ (add_some (served_with w m i o) (collect (served w m) is), true)
      by_value ih none bad = cc
      by_value ih (some v) there =
          ap (next_entity codec (served_with w m i (some v))) ih
          ∙ by_entity (served_with w m i (some v)) there

  pub new_entities-source :
      (w : Bool) (m : StringMap E) (keys : List String)
      → AllHad (source w m) keys
      → new_entities codec w config m keys ≡ (collect (source w m) keys, true)
  new_entities-source true m keys all = entities-served true m keys all
  new_entities-source false m keys all = ap (λ es. (es, true)) (values-collect m keys)

  module _ (laws : IsCodec k codec) where
    create_entity-id : (i : String) (v : V) (e : E) → create_entity codec i v ≡ some e → k.id e ≡ i
    create_entity-id i v e h = elim (Bool-cases (codec.is_id i)) [
      | inl valid ↦
          by_decoded valid (codec.unmarshal v)
            (sym (ap (λ b. if b then with_id codec i (codec.unmarshal v) else none) valid) ∙ h)
      | inr invalid ↦
          let bad =
            sym (ap (λ b. if b then with_id codec i (codec.unmarshal v) else none) invalid) ∙ h in
          cc
    ]
      where
        by_decoded : codec.is_id i ≡ true → (o : Option E) → with_id codec i o ≡ some e → k.id e ≡ i
        by_decoded valid none bad = cc
        by_decoded valid (some e') h' =
            ap (λ (o : Option E). elim o [ none ↦ i | some x ↦ k.id x ]) (sym h')
            ∙ laws.id_set i e' valid

    checksum_from-checksum :
        (d e e' : E) (o : Option E)
        → o ≡ some d
        → checksum_from codec o e ≡ some e'
        → (k.id e' ≡ k.id e) × (k.checksum e' ≡ k.checksum d)
    checksum_from-checksum d e e' none absent h = cc
    checksum_from-checksum d e e' (some d') is h =
        let same : d' ≡ d = ap (λ (o : Option E). elim o [ none ↦ d | some x ↦ x ]) is in
        by_checksum (k.checksum d') (ap k.checksum same) h
      where
        by_checksum :
            (o : Option String)
            → o ≡ k.checksum d
            → (elim o [ none ↦ none | some c ↦ codec.set_checksum c e ]) ≡ some e'
            → (k.id e' ≡ k.id e) × (k.checksum e' ≡ k.checksum d)
        by_checksum none from bad = cc
        by_checksum (some c) from h' = let l = laws.checksum_set c e e' h' in (l.0, l.1 ∙ from)

    -- What a checked entity has: its own ID, and with checksums that of the delta's entity.
    abbrev IsChecked : Bool → StringMap E → String → E → Type 0
    IsChecked w m i e =
        (k.id e ≡ i) × (w ≡ true → (d : E) → m i ≡ some d → k.checksum e ≡ k.checksum d)

    checked-IsChecked :
        (w : Bool) (m : StringMap E) (i : String) (o : Option E) (e : E)
        → ((x : E) → o ≡ some x → k.id x ≡ i)
        → checked codec w m o ≡ some e
        → IsChecked w m i e
    checked-IsChecked true m i none e its_id bad = cc
    checked-IsChecked false m i o e its_id h = (its_id e h, λ no_checksums. cc)
    checked-IsChecked true m i (some x) e its_id h = elim (Option-cases (m (k.id x))) [
      | inl absent ↦ let bad = sym (ap (λ o. checksum_from codec o x) absent) ∙ h in cc
      | inr (d', there) ↦
          let set = checksum_from-checksum d' x e (m (k.id x)) there h in
          (
            set.0 ∙ its_id x refl,
            λ _ d wanted.
                (checksum_from-checksum d x e (m (k.id x)) (ap m (its_id x refl) ∙ wanted) h).1,
          )
    ]

    pub served-IsChecked :
        (w : Bool) (m : StringMap E) (i : String) (e : E)
        → served w m i ≡ some e
        → (k.id e ≡ i) × (w ≡ true → (d : E) → m i ≡ some d → k.checksum e ≡ k.checksum d)
    served-IsChecked w m i e h = by_value (config i) h
      where
        by_value :
            (o : Option V)
            → served_with w m i o ≡ some e
            → (k.id e ≡ i) × (w ≡ true → (d : E) → m i ≡ some d → k.checksum e ≡ k.checksum d)
        by_value none bad = cc
        by_value (some v) h' =
            checked-IsChecked w m i (create_entity codec i v) e (λ x is. create_entity-id i v x is)
              h'

    pub source-IsChecked :
        (w : Bool) (m : StringMap E)
        → ((i : String) (e : E) → m i ≡ some e → k.id e ≡ i)
        → (i : String) (e : E) → source w m i ≡ some e
        → (k.id e ≡ i) × (w ≡ true → (d : E) → m i ≡ some d → k.checksum e ≡ k.checksum d)
    source-IsChecked true m keyed i e h = served-IsChecked true m i e h
    source-IsChecked false m keyed i e h = (keyed i e h, λ no_checksums. cc)
