-- ===== src/ConfigSync/Landed.antt =====
-- The row that the statements of a delta leave for an ID is right, and the table that has these rows.
use icingadb.Prelude.{
  contains, String, List, Bool, true, false, Option, none, some, is_some, if◌then◌else◌, ◌≡◌, refl,
  sym, ap, ◌∙◌, subst,
}
use icingadb.Prelude.Maps.{StringMap}
use icingadb.Delta.{Entity}
use icingadb.Delta.Spec.{find, only, changed_pair}
use icingadb.ConfigSync.{
  Codec, Statement, Outside, hm_yield, entities, new_entities, end_of, wait, run_group,
}
use icingadb.ConfigSync.Prepared.{
  IsCodec, collect, served, source, entities-served, new_entities-source,
}
use icingadb.ConfigSync.Effects.{Cell, perform-effects}
use icingadb.ConfigSync.Keyed.{AllHad-contains}
use icingadb.ConfigSync.Rows.{IsCalm, row_checksum, Follows, Reads, to_update, no_row, Ends}
use icingadb.ConfigSync.Right.{only-id, HasChecksums, same-right, fresh-right, newer-right}
use icingadb.ConfigSync.Synced.{IsServed, statements, same_row, fresh_row, newer_row, gone_row}

never_updated : {E : Type 0} (o : Option E) (b : Bool) → o ≡ none → (if b then o else none) ≡ none
never_updated o true is = is
never_updated o false is = refl

module _ {E V : Type 0} ⦃k : Entity E⦄ (codec : Codec E V) (laws : IsCodec k codec)
    (w tracked : Bool) (checksums : HasChecksums k w tracked) (config : String → Option V)
    (have want : List E) (create_keys update_keys delete_keys : List String)
    (given : IsServed codec w config tracked have want create_keys update_keys delete_keys)
    (table : StringMap E) (reads : (i : String) → Reads w (find i have) (table i))
    (out : Outside) where
  abbrev written : List (Statement E)
  written =
      statements codec laws w tracked checksums config have want create_keys update_keys delete_keys
        given table reads out

  module _ (i : String) where
    creates_at :
        (h d : Option E)
        → find i have ≡ h
        → find i want ≡ d
        → contains i create_keys ≡ is_some (if is_some h then none else d)
    creates_at h d is_h is_d =
        given.creates.exact i
        ∙ ap (λ o. is_some (if is_some o then none else find i want)) is_h
        ∙ ap (λ o. is_some (if is_some h then none else o)) is_d

    deletes_at :
        (h d : Option E)
        → find i have ≡ h
        → find i want ≡ d
        → contains i delete_keys ≡ is_some (if is_some d then none else h)
    deletes_at h d is_h is_d =
        given.deletes.exact i
        ∙ ap (λ o. is_some (if is_some o then none else find i have)) is_d
        ∙ ap (λ o. is_some (if is_some d then none else o)) is_h

    update_at :
        (h d : Option E)
        → find i have ≡ h
        → find i want ≡ d
        → to_update tracked have want i ≡ (if tracked then changed_pair h d else none)
    update_at h d is_h is_d =
        ap (λ o. if tracked then changed_pair o (find i want) else none) is_h
        ∙ ap (λ o. if tracked then changed_pair h o else none) is_d

    -- What is to be updated for a pair, of which one has no entity.
    none_updated :
        to_update tracked have want i ≡ (if tracked then none else none)
        → contains i update_keys ≡ false
    none_updated is = given.updates.exact i ∙ ap is_some (is ∙ never_updated none tracked refl)

    abbrev IsRight : Option E → Option E → Option E → Option E → Type 0
    IsRight h d u =
        Follows w h d u (served codec config w (to_update tracked have want) i) (table i)

    both :
        (a d : E)
        → find i have ≡ some a
        → find i want ≡ some d
        → (u : Option E) → to_update tracked have want i ≡ u
        → Ends written i (table i) (IsRight (some a) (some d) u)
    both a d is_h is_d none is =
        same_row codec laws w tracked checksums config have want create_keys update_keys delete_keys
          given table reads out (IsRight (some a) (some d) none) i
          (creates_at (some a) (some d) is_h is_d) (given.updates.exact i ∙ ap is_some is)
          (deletes_at (some a) (some d) is_h is_d)
          (same-right w tracked checksums a d
            (served codec config w (to_update tracked have want) i) (table i)
            (sym (reads i).0 ∙ ap is_some is_h)
            (λ checks. sym (ap row_checksum is_h) ∙ (reads i).1 checks)
            (sym (update_at (some a) (some d) is_h is_d) ∙ is))
    both a d is_h is_d (some x) is =
        let wanted : contains i update_keys ≡ true = given.updates.exact i ∙ ap is_some is in
        newer_row codec laws w tracked checksums config have want create_keys update_keys
          delete_keys given table reads out (IsRight (some a) (some d) (some x)) i
          (creates_at (some a) (some d) is_h is_d) wanted (deletes_at (some a) (some d) is_h is_d)
          (newer-right codec config laws i w tracked (to_update tracked have want) a d x (table i)
            is (sym (update_at (some a) (some d) is_h is_d) ∙ is)
            (AllHad-contains (served codec config w (to_update tracked have want)) i update_keys
              given.updates_served wanted))

    row_of_pair :
        (h d : Option E)
        → find i have ≡ h
        → find i want ≡ d
        → Ends written i (table i) (IsRight h d (to_update tracked have want i))
    row_of_pair none none is_h is_d =
        same_row codec laws w tracked checksums config have want create_keys update_keys delete_keys
          given table reads out (IsRight none none (to_update tracked have want i)) i
          (creates_at none none is_h is_d) (none_updated (update_at none none is_h is_d))
          (deletes_at none none is_h is_d) (no_row (table i) (sym (ap is_some is_h) ∙ (reads i).0))
    row_of_pair none (some d) is_h is_d =
        let wanted : contains i create_keys ≡ true = creates_at none (some d) is_h is_d in
        fresh_row codec laws w tracked checksums config have want create_keys update_keys
          delete_keys given table reads out (IsRight none (some d) (to_update tracked have want i))
          i wanted (none_updated (update_at none (some d) is_h is_d))
          (deletes_at none (some d) is_h is_d)
          (no_row (table i) (sym (ap is_some is_h) ∙ (reads i).0))
          (fresh-right codec config laws i w (only want have) d (to_update tracked have want i)
            (served codec config w (to_update tracked have want) i) (table i) (only-id want have)
            (ap (λ o. if is_some o then none else find i want) is_h ∙ is_d)
            (AllHad-contains (source codec config w (only want have)) i create_keys given.new_served
              wanted))
    row_of_pair (some a) none is_h is_d =
        gone_row codec laws w tracked checksums config have want create_keys update_keys delete_keys
          given table reads out i (creates_at (some a) none is_h is_d)
          (none_updated (update_at (some a) none is_h is_d)) (deletes_at (some a) none is_h is_d)
    row_of_pair (some a) (some d) is_h is_d =
        both a d is_h is_d (to_update tracked have want i) refl

  row_left :
      (i : String)
      → Ends written i
          (table i)
          (IsRight i (find i have) (find i want) (to_update tracked have want i))
  row_left i = row_of_pair i (find i have) (find i want) refl refl

  -- If nothing fails, every statement is carried out, and each row of the table is right.
  pub statements-Follow :
      IsCalm out
      → (table' : StringMap E) × (run_group codec out
            (new_entities codec w config (only want have) create_keys)
            (entities codec w (to_update tracked have want) (hm_yield codec config update_keys))
            delete_keys
            table
          ≡ (table', none))
        × ((i : String)
            → IsRight i (find i have) (find i want) (to_update tracked have want i) (table' i))
  statements-Follow calm =
      let done = perform-effects written table (λ i. ap is_some (row_left i).is_row) in
      (
        done.0,
        ap
              (λ x.
                run_group codec out x
                  (entities codec w (to_update tracked have want)
                    (hm_yield codec config update_keys))
                  delete_keys table)
              (new_entities-source codec config w (only want have) create_keys given.new_served)
            ∙ ap
                (λ x.
                  run_group codec out
                    (collect (source codec config w (only want have)) create_keys, true) x
                    delete_keys table)
                (entities-served codec config w (to_update tracked have want) update_keys
                  given.updates_served)
            ∙ ap (λ n. wait n true written table) calm.completes
            ∙ ap (end_of true) done.1,
        λ i.
            subst (IsRight i (find i have) (find i want) (to_update tracked have want i))
              (ap (λ (v : Cell E). elim v [ none ↦ none | some o ↦ o ])
                (sym ((row_left i)).is_row ∙ done.2 i))
              (row_left i).right,
      )
