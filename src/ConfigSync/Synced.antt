-- ===== src/ConfigSync/Synced.antt =====
-- What the table has once the statements of a delta are carried out.
use icingadb.Prelude.{
  contains, String, List, map, Bool, true, false, Option, none, some, ◌≡◌, refl, ap, ◌∙◌,
}
use icingadb.Prelude.Maps.{StringMap}
use icingadb.Prelude.Interleavings.{
  interleave, effects, AllNeutral, effects-neutral, effects-first, effects-second,
  interleave-AllNeutral,
}
use icingadb.Delta.{Entity}
use icingadb.Delta.Spec.{find, only}
use icingadb.ConfigSync.{Codec, Statement, create, upsert, Outside}
use icingadb.ConfigSync.Prepared.{
  IsCodec, AllHad, served, source, collect, served-IsChecked, source-IsChecked,
}
use icingadb.ConfigSync.Effects.{
  effect, create-IsWrite, upsert-IsWrite, removes, removes-AllNeutral, removes-effect,
}
use icingadb.ConfigSync.Keyed.{KeysOf, of_keys-AllNeutral, of_keys-effect}
use icingadb.ConfigSync.Right.{only-id, HasChecksums}
use icingadb.ConfigSync.Rows.{Reads, to_update, Ends}

-- The keys of the delta's maps, each in any order, and what Redis has for them.
pub record IsServed {E V : Type 0} ⦃k : Entity E⦄ (codec : Codec E V) (w : Bool)
    (config : String → Option V) (tracked : Bool) (have want : List E)
    (create_keys update_keys delete_keys : List String) : Type 0 where
  pub creates : KeysOf (only want have) create_keys
  pub updates : KeysOf (to_update tracked have want) update_keys
  pub deletes : KeysOf (only have want) delete_keys
  pub new_served : AllHad (source codec config w (only want have)) create_keys
  pub updates_served : AllHad (served codec config w (to_update tracked have want)) update_keys

module _ {E V : Type 0} ⦃k : Entity E⦄ (codec : Codec E V) (laws : IsCodec k codec)
    (w tracked : Bool) (checksums : HasChecksums k w tracked) (config : String → Option V)
    (have want : List E) (create_keys update_keys delete_keys : List String)
    (given : IsServed codec w config tracked have want create_keys update_keys delete_keys)
    (table : StringMap E) (reads : (i : String) → Reads w (find i have) (table i))
    (out : Outside) where
  abbrev new : StringMap E
  new = source codec config w (only want have)

  abbrev newer : StringMap E
  newer = served codec config w (to_update tracked have want)

  new_keyed : (i : String) (e : E) → new i ≡ some e → k.id e ≡ i
  new_keyed i e h =
      (source-IsChecked codec config laws w (only want have) (only-id want have) i e h).0

  newer_keyed : (i : String) (e : E) → newer i ≡ some e → k.id e ≡ i
  newer_keyed i e h = (served-IsChecked codec config laws w (to_update tracked have want) i e h).0

  abbrev created : List (Statement E)
  created = map (λ (e : E). create e) (collect new create_keys)

  abbrev updated : List (Statement E)
  updated = map (λ (e : E). upsert e) (collect newer update_keys)

  abbrev pub statements : List (Statement E)
  statements = interleave out.second (interleave out.first created updated) (removes E delete_keys)

  no_create : (i : String) → contains i create_keys ≡ false → AllNeutral (effect i) created
  no_create i absent =
      of_keys-AllNeutral new new_keyed (λ e. create e) (some none) create-IsWrite i create_keys
        absent

  no_update : (i : String) → contains i update_keys ≡ false → AllNeutral (effect i) updated
  no_update i absent =
      of_keys-AllNeutral newer newer_keyed (λ e. upsert e) (some none) (upsert-IsWrite none) i
        update_keys absent

  pub same_row :
      (P : Option E → Type 0) (i : String)
      → contains i create_keys ≡ false
      → contains i update_keys ≡ false
      → contains i delete_keys ≡ false
      → P (table i)
      → Ends statements i (table i) P
  same_row P i nc nu nd right = record {
    row = table i;
    is_row = effects-neutral (effect i) statements (some (table i)) (
        interleave-AllNeutral (effect i) out.second (interleave out.first created updated)
          (removes E delete_keys)
          (interleave-AllNeutral (effect i) out.first created updated (no_create i nc)
            (no_update i nu))
          (removes-AllNeutral E i delete_keys nd));
    right = right;
  }

  pub fresh_row :
      (P : Option E → Type 0) (i : String)
      → contains i create_keys ≡ true
      → contains i update_keys ≡ false
      → contains i delete_keys ≡ false
      → table i ≡ none
      → P (new i)
      → Ends statements i (table i) P
  fresh_row P i yc nu nd no_row_yet right = record {
    row = new i;
    is_row =
        effects-first (effect i) out.second (interleave out.first created updated)
          (removes E delete_keys) (some (table i)) (removes-AllNeutral E i delete_keys nd)
        ∙ effects-first (effect i) out.first created updated (some (table i)) (no_update i nu)
        ∙ ap (λ (o : Option E). effects (effect i) created (some o)) no_row_yet
        ∙ of_keys-effect new new_keyed (λ e. create e) (some none) create-IsWrite i create_keys
            given.creates.once given.new_served yc;
    right = right;
  }

  pub newer_row :
      (P : Option E → Type 0) (i : String)
      → contains i create_keys ≡ false
      → contains i update_keys ≡ true
      → contains i delete_keys ≡ false
      → P (newer i)
      → Ends statements i (table i) P
  newer_row P i nc yu nd right = record {
    row = newer i;
    is_row =
        effects-first (effect i) out.second (interleave out.first created updated)
          (removes E delete_keys) (some (table i)) (removes-AllNeutral E i delete_keys nd)
        ∙ effects-second (effect i) out.first created updated (some (table i)) (no_create i nc)
        ∙ of_keys-effect newer newer_keyed (λ e. upsert e) (some (table i))
            (upsert-IsWrite (table i)) i update_keys given.updates.once given.updates_served yu;
    right = right;
  }

  pub gone_row :
      (i : String)
      → contains i create_keys ≡ false
      → contains i update_keys ≡ false
      → contains i delete_keys ≡ true
      → Ends statements i (table i) (λ row. row ≡ none)
  gone_row i nc nu yd = record {
    row = none;
    is_row =
        effects-second (effect i) out.second (interleave out.first created updated)
          (removes E delete_keys) (some (table i))
          (interleave-AllNeutral (effect i) out.first created updated (no_create i nc)
            (no_update i nu))
        ∙ removes-effect E i delete_keys (table i) yd;
    right = refl;
  }
