-- ===== src/ConfigSync/Followed.antt =====
-- The delta and its application together: the table follows Redis.
use icingadb.Prelude.{
  String, List, [], Bool, true, false, ◌||◌, Option, none, some, is_some, ◌≡◌, refl, ap, ◌∙◌,
  fun_ext,
}
use icingadb.Prelude.Maps.{StringMap}
use icingadb.Delta.{Entity, SyncSubject, Recv}
use icingadb.Delta.Spec.{
  find, Distinct, only, IsComparable, sent_actual, sent_desired, ends_actual, ends_desired,
  is_cancelled,
}
use icingadb.Delta.Result.{tracks, IsDelta, run-IsDelta}
use icingadb.ConfigSync.{
  Codec, Outside, Error, hm_yield, entities, new_entities, run_group, updates_of, ids, apply_delta,
  when_done, sync,
}
use icingadb.ConfigSync.Prepared.{IsCodec, served}
use icingadb.ConfigSync.Keyed.{ids-keys}
use icingadb.ConfigSync.Rows.{IsCalm, Follows, Reads, to_update, updates_of-is}
use icingadb.ConfigSync.Right.{only-id, HasChecksums}
use icingadb.ConfigSync.Synced.{IsServed}
use icingadb.ConfigSync.Landed.{statements-Follow}

-- The schedule of a delta that comes to its end.
pub record Completes {E : Type 0} ⦃k : Entity E⦄ (rs : List (Recv E)) : Type 0 where
  pub not_cancelled : is_cancelled rs ≡ false
  pub actual_ends : ends_actual rs ≡ true
  pub desired_ends : ends_desired rs ≡ true
  pub actual_distinct : Distinct (sent_actual true [] rs)
  pub desired_distinct : Distinct (sent_desired true [] rs)

tracks-HasChecksums :
    {E : Type 0} (k : Entity E) (subject : SyncSubject)
    → (subject.with_checksum ≡ true → (e : E) → is_some (k.checksum e) ≡ true)
    → HasChecksums k subject.with_checksum (tracks subject)
tracks-HasChecksums k subject has_checksum = record {
  each = has_checksum;
  compared = λ h. ap (λ b. subject.entity_equaler || b) h ∙ or_true subject.entity_equaler;
}
  where
    or_true : (b : Bool) → (b || true) ≡ true
    or_true true = refl
    or_true false = refl

module _ {E V : Type 0} ⦃k : Entity E⦄ (codec : Codec E V) where
  -- For a subject whose entities have checksums if it is one with checksums, and a codec that sets IDs and
  -- checksums: if the delta's channels deliver the table's entities (their IDs and, with checksums, these) and
  -- Redis's, each ID once, and close, what is to be written is in Redis and can be decoded, and nothing fails, then
  -- Sync ends without an error, and the table follows Redis, whatever the interleaving of the channels, the
  -- order of the maps' keys and that of the statements. With checksums, it has exactly the IDs and checksums that
  -- Redis sent. Without, an ID has a row exactly if Redis sent it: a new row is the entity that was sent, one whose
  -- entity the delta finds changed is what Redis has for the ID, and any other row is as it was.
  pub sync-Follows :
      (laws : IsCodec k codec) (comparable : IsComparable k) (out : Outside) (calm : IsCalm out)
      (subject : SyncSubject)
      (has_checksum : subject.with_checksum ≡ true → (e : E) → is_some (k.checksum e) ≡ true)
      (rs : List (Recv E)) (completes : Completes rs) (config : String → Option V)
      (create_keys update_keys delete_keys : List String)
      (given : IsServed codec subject.with_checksum config
        (tracks subject)
        (sent_actual true [] rs)
        (sent_desired true [] rs)
        create_keys
        update_keys
        delete_keys)
      (table : StringMap E)
      (reads : (i : String)
        → Reads subject.with_checksum (find i (sent_actual true [] rs)) (table i))
      → (table' : StringMap E) × (sync codec out subject rs config create_keys update_keys
            delete_keys table
          ≡ some (table', none))
        × ((i : String)
            → Follows subject.with_checksum
                (find i (sent_actual true [] rs))
                (find i (sent_desired true [] rs))
                (to_update (tracks subject) (sent_actual true [] rs) (sent_desired true [] rs) i)
                (served codec config subject.with_checksum
                  (to_update (tracks subject) (sent_actual true [] rs) (sent_desired true [] rs))
                  i)
                (table i)
                (table' i))
  unfolding sync apply_delta
  sync-Follows laws comparable out calm subject has_checksum rs completes config create_keys
        update_keys delete_keys given table reads =
      let have = sent_actual true [] rs in
      let want = sent_desired true [] rs in
      let w = subject.with_checksum in
      let published =
        run-IsDelta subject rs comparable completes.not_cancelled completes.actual_ends
          completes.desired_ends completes.actual_distinct completes.desired_distinct in
      let δ = published.0 in
      let is_delta : IsDelta (tracks subject) have want δ = published.2 in
      let created : δ.create ≡ only want have = fun_ext (λ i. is_delta.created i) in
      let updated : updates_of δ.update ≡ to_update (tracks subject) have want =
        fun_ext (λ i. updates_of-is (tracks subject) have want δ.update is_delta.updated i) in
      let deleted : ids δ.remove delete_keys ≡ delete_keys =
        ap (λ (m : StringMap E). ids m delete_keys) (fun_ext (λ i. is_delta.removed i))
        ∙ ids-keys (only have want) delete_keys (only-id have want) given.deletes in
      let done =
        statements-Follow codec laws w (tracks subject) (tracks-HasChecksums k subject has_checksum)
          config have want create_keys update_keys delete_keys given table reads out calm in
      (
        done.0,
        ap (when_done codec out subject config create_keys update_keys delete_keys table)
              published.1
            ∙ ap
                (λ (m : StringMap E). some (
                  run_group codec out (new_entities codec w config m create_keys)
                    (entities codec w (updates_of δ.update) (hm_yield codec config update_keys))
                    (ids δ.remove delete_keys) table))
                created
            ∙ ap
                (λ (m : StringMap E). some (
                  run_group codec out (new_entities codec w config (only want have) create_keys)
                    (entities codec w m (hm_yield codec config update_keys))
                    (ids δ.remove delete_keys) table))
                updated
            ∙ ap
                (λ (old : List String). some (
                  run_group codec out (new_entities codec w config (only want have) create_keys)
                    (entities codec w (to_update (tracks subject) have want)
                      (hm_yield codec config update_keys))
                    old table))
                deleted
            ∙ ap (λ (r : StringMap E × Option Error). some r) done.1,
        done.2,
      )
