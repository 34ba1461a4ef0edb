-- ===== src/Delta/Result.antt =====
-- What `run` publishes, whatever the interleaving of its two channels.
use icingadb.Prelude.{
  String, List, [], ◌∷◌, Bool, true, false, ◌||◌, ◌≡◌, refl, ◌∙◌, arith, ◌⊎◌, inl, inr, Bool-cases,
}
use icingadb.Delta.{
  Entity, SyncSubject, Delta, Run, Recv, recv_actual, recv_desired, end_actual, end_desired,
  ctx_done, Outcome, waiting, finished, start, step, loop, run, on_actual, on_desired,
}
use icingadb.Delta.Spec.{
  find, Distinct, only, unit_of, IsComparable, sent_actual, sent_desired, ends_actual, ends_desired,
  is_cancelled,
}
use icingadb.Delta.Schedule.{
  Distinct-sent_actual, Distinct-sent_desired, sent_actual-closed, sent_desired-closed,
}
use icingadb.Delta.Invariant.{Inv, UpdateIs, on_actual-Inv, on_desired-Inv}

-- Whether `update` is a map: `run` makes one where entities can be compared.
abbrev pub tracks : SyncSubject → Bool
tracks subject = subject.entity_equaler || subject.with_checksum

module _ {E : Type 0} ⦃k : Entity E⦄ where
  -- The delta of `have`, the actual entities, and `want`, the desired ones.
  pub record IsDelta (tracked : Bool) (have want : List E) (δ : Delta E) : Type 0 where
    pub created : (i : String) → δ.create i ≡ only want have i
    pub removed : (i : String) → δ.remove i ≡ only have want i
    pub updated : UpdateIs tracked have want δ.update
    pub snapshot : (i : String) → δ.redis_snapshot i ≡ unit_of (find i want)

  abbrev pub Publishes : Bool → List E → List E → Outcome E → Type 0
  Publishes tracked have want o = (δ : Delta E) × (o ≡ finished δ) × IsDelta tracked have want δ

  loop-finished : (δ : Delta E) (rs : List (Recv E)) → loop (finished δ) rs ≡ finished δ
  unfolding loop
  loop-finished δ [] = refl
  loop-finished δ (r ∷ rs) = refl

  -- What the loop needs of the schedule from here on.
  abbrev Ready : Bool → Bool → List E → List E → List (Recv E) → Type 0
  Ready ao wo have want rs =
      ((ao || wo) ≡ true)
      × (is_cancelled rs ≡ false)
      × ((ao ≡ false) ⊎ (ends_actual rs ≡ true))
      × ((wo ≡ false) ⊎ (ends_desired rs ≡ true))
      × Distinct (sent_actual ao have rs)
      × Distinct (sent_desired wo want rs)

  abbrev publish : Run E → Delta E
  publish s = record {
    redis_snapshot = s.redis_snapshot;
    create = s.desired;
    update = s.update;
    remove = s.actual;
  }

  -- Once both channels are closed the loop is over.
  finished-Publishes :
      (tracked : Bool) (have want : List E) (s : Run E) (rs : List (Recv E))
      → Inv tracked have want s
      → Publishes tracked
          (sent_actual false have rs)
          (sent_desired false want rs)
          (loop (finished (publish s)) rs)
  finished-Publishes tracked have want s rs inv =
      rw (sent_actual-closed have rs, sent_desired-closed want rs)
        (
          publish s,
          loop-finished (publish s) rs,
          record {
            created = inv.desired_only;
            removed = inv.actual_only;
            updated = inv.updates;
            snapshot = inv.snapshot;
          },
        )

  step_actual : (s : Run E) (a : E) → s.actual_open ≡ true → step s (recv_actual a) ≡ on_actual s a
  unfolding step
  step_actual s a h = ground arith

  step_desired :
      (s : Run E) (d : E) → s.desired_open ≡ true → step s (recv_desired d) ≡ on_desired s d
  unfolding step
  step_desired s d h = ground arith

  skip_actual : (s : Run E) (a : E) → s.actual_open ≡ false → step s (recv_actual a) ≡ waiting s
  unfolding step
  skip_actual s a h = ground arith

  skip_desired : (s : Run E) (d : E) → s.desired_open ≡ false → step s (recv_desired d) ≡ waiting s
  unfolding step
  skip_desired s d h = ground arith

  step_end_actual :
      (s : Run E)
      → s.desired_open ≡ true
      → step s end_actual ≡ waiting (record s { actual_open = false })
  unfolding step
  step_end_actual s h = ground arith

  step_end_actual_last :
      (s : Run E) → s.desired_open ≡ false → step s end_actual ≡ finished (publish s)
  unfolding step
  step_end_actual_last s h = ground arith

  step_end_desired :
      (s : Run E)
      → s.actual_open ≡ true
      → step s end_desired ≡ waiting (record s { desired_open = false })
  unfolding step
  step_end_desired s h = ground arith

  step_end_desired_last :
      (s : Run E) → s.actual_open ≡ false → step s end_desired ≡ finished (publish s)
  unfolding step
  step_end_desired_last s h = ground arith

  -- Closing a channel leaves the maps alone.
  closed-Inv :
      (tracked : Bool) (have want : List E) (s : Run E) (ao wo : Bool)
      → Inv tracked have want s
      → Inv tracked have want (record s { actual_open = ao; desired_open = wo })
  closed-Inv tracked have want s ao wo inv = record {
    actual_only = inv.actual_only;
    desired_only = inv.desired_only;
    snapshot = inv.snapshot;
    updates = inv.updates;
  }

  loop-Publishes :
      (tracked ao wo : Bool) (have want : List E) (s : Run E) (rs : List (Recv E))
      → IsComparable k
      → Ready ao wo have want rs
      → s.actual_open ≡ ao
      → s.desired_open ≡ wo
      → Inv tracked have want s
      → Publishes tracked (sent_actual ao have rs) (sent_desired wo want rs) (loop (waiting s) rs)
  unfolding loop
  loop-Publishes tracked ao wo have want s [] c r ha hw inv = absurd (ground arith)
  loop-Publishes tracked true wo have want s (recv_actual a ∷ rs) c r ha hw inv =
      let (s', e, inv', sa, sw) =
        on_actual-Inv tracked have want s a c (Distinct-sent_actual true (a ∷ have) rs r.4).0 inv in
      rw (step_actual s a ha ∙ e)
        (loop-Publishes tracked true wo (a ∷ have) want s' rs c r (sa ∙ ha) (sw ∙ hw) inv')
  loop-Publishes tracked false wo have want s (recv_actual a ∷ rs) c r ha hw inv =
      rw (skip_actual s a ha) (loop-Publishes tracked false wo have want s rs c r ha hw inv)
  loop-Publishes tracked ao true have want s (recv_desired d ∷ rs) c r ha hw inv =
      let (s', e, inv', sa, sw) =
        on_desired-Inv tracked have want s d c (Distinct-sent_desired true (d ∷ want) rs r.5).0
          inv in
      rw (step_desired s d hw ∙ e)
        (loop-Publishes tracked ao true have (d ∷ want) s' rs c r (sa ∙ ha) (sw ∙ hw) inv')
  loop-Publishes tracked ao false have want s (recv_desired d ∷ rs) c r ha hw inv =
      rw (skip_desired s d hw) (loop-Publishes tracked ao false have want s rs c r ha hw inv)
  loop-Publishes tracked ao true have want s (end_actual ∷ rs) c r ha hw inv =
      rw (step_end_actual s hw) (
        loop-Publishes tracked false true have want (record s { actual_open = false }) rs c
          (refl, r.1, inl refl, r.3, r.4, r.5) refl hw
          (closed-Inv tracked have want s false s.desired_open inv))
  loop-Publishes tracked ao false have want s (end_actual ∷ rs) c r ha hw inv =
      rw (step_end_actual_last s hw) (finished-Publishes tracked have want s rs inv)
  loop-Publishes tracked true wo have want s (end_desired ∷ rs) c r ha hw inv =
      rw (step_end_desired s ha) (
        loop-Publishes tracked true false have want (record s { desired_open = false }) rs c
          (refl, r.1, r.2, inl refl, r.4, r.5) ha refl
          (closed-Inv tracked have want s s.actual_open false inv))
  loop-Publishes tracked false wo have want s (end_desired ∷ rs) c r ha hw inv =
      rw (step_end_desired_last s ha) (finished-Publishes tracked have want s rs inv)
  loop-Publishes tracked ao wo have want s (ctx_done ∷ rs) c r ha hw inv = cc (r.1)

  start-Inv : (subject : SyncSubject) → Inv (tracks subject) [] [] (start {E = E} subject)
  unfolding start
  start-Inv subject = record {
    actual_only = λ i. refl;
    desired_only = λ i. refl;
    snapshot = λ i. refl;
    updates = elim (Bool-cases (tracks subject)) [ inl e ↦ rw e (λ i. refl) | inr e ↦ rw e tt ];
  }

  -- For any two entities that can be compared, and any schedule that closes both channels, is not
  -- cancelled, and delivers no two entities of one id on the same channel, the run ends, and it
  -- publishes the delta of the entities delivered: those to create are the desired ones whose id no
  -- actual one has, those to delete the actual ones whose id no desired one has, those to update
  -- the desired versions of those that are on both sides and differ (nil for a subject that tracks
  -- no updates), and the snapshot holds the ids of the desired ones. The interleaving does not matter.
  pub run-IsDelta :
      (subject : SyncSubject) (rs : List (Recv E))
      → IsComparable k
      → is_cancelled rs ≡ false
      → ends_actual rs ≡ true
      → ends_desired rs ≡ true
      → Distinct (sent_actual true [] rs)
      → Distinct (sent_desired true [] rs)
      → (δ : Delta E) × (run subject rs ≡ finished δ)
        × IsDelta (tracks subject) (sent_actual true [] rs) (sent_desired true [] rs) δ
  unfolding run start
  run-IsDelta subject rs c nc ea ed da dd =
      loop-Publishes (tracks subject) true true [] [] (start subject) rs c
        (refl, nc, inr ea, inr ed, da, dd) refl refl (start-Inv subject)
