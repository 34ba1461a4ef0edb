-- ===== src/Overdue/Rounds.antt =====
-- What a round leaves of one ID, whatever the order of the goroutines' actions.
use icingadb.Prelude.{
  contains, String, List, [], Bool, true, false, ◌&&◌, none, some, if◌then◌else◌, ◌≡◌, ap, ◌∙◌,
  subst, Bool-cases, inl, inr,
}
use icingadb.Prelude.Interleavings.{interleave, effects-neutral, effects-first, effects-second}
use icingadb.Overdue.{
  sadd, sdiff, zrangebyscore, Store, perform, update_overdue, Error, Round, wait, update_both,
  on_reply, get_overdues, sync_round,
}
use icingadb.Overdue.Sets.{has_row}
use icingadb.Overdue.Goroutines.{
  view, effect, perform-effects, goroutine, AllValid, as_members, update_overdue-goroutine,
  goroutine-AllNeutral, effects-goroutine,
}

-- Both goroutines, to their ends, for IDs of which none is in both: in every order of their actions, each ID is
-- left as the one of them that has it leaves it.
pub perform-interleaved :
    (i : String) (sched : List Bool) (late early : List String) (s : Store)
    → (contains i late && contains i early) ≡ false
    → view i (perform (interleave sched (goroutine true late) (goroutine false early)) s) ≡ (
        if contains i late
        then (true, has_row i s.table, has_row i s.table && true)
        else if contains i early
        then (false, has_row i s.table, has_row i s.table && false)
        else view i s)
perform-interleaved i sched late early s disjoint =
    perform-effects i (interleave sched (goroutine true late) (goroutine false early)) s
    ∙ elim (Bool-cases (contains i late)) [
      | inl yes_late ↦
          let no_early : contains i early ≡ false =
            subst (λ x. (x && contains i early) ≡ false) yes_late disjoint in
          rw yes_late (
            effects-first (effect i) sched (goroutine true late) (goroutine false early) (view i s)
              (goroutine-AllNeutral i false early no_early)
            ∙ effects-goroutine i true late (view i s) yes_late)
      | inr no_late ↦ rw no_late (
          effects-second (effect i) sched (goroutine true late) (goroutine false early) (view i s)
            (goroutine-AllNeutral i true late no_late)
          ∙ elim (Bool-cases (contains i early)) [
            | inl yes_early ↦ rw yes_early (effects-goroutine i false early (view i s) yes_early)
            | inr no_early ↦ rw no_early (
                effects-neutral (effect i) (goroutine false early) (view i s)
                  (goroutine-AllNeutral i false early no_early))
          ])
    ]

-- A round that nothing fails in: the two goroutines run to their ends.
pub record IsCalm (r : Round) : Type 0 where
  pub script : r.script_fails ≡ false
  pub completes : r.stops ≡ none

abbrev pub late_ids : Round → List String
late_ids r = sadd (zrangebyscore r.next_update r.now) []

pub round-performs :
    (valid : String → Bool) (r : Round) (s : Store)
    → IsCalm r
    → AllValid valid (sdiff (late_ids r) s.overdue)
    → AllValid valid (sdiff s.overdue (late_ids r))
    → sync_round valid r s ≡ (
      perform
          (interleave r.schedule
            (goroutine true (sdiff (late_ids r) s.overdue))
            (goroutine false (sdiff s.overdue (late_ids r))))
          s,
      none,
    )
unfolding sync_round
round-performs valid r s calm valid_late valid_early =
    let late = sdiff (late_ids r) s.overdue in
    let early = sdiff s.overdue (late_ids r) in
    ap
      (λ b.
        if b
        then (s, some Error.script_failed)
        else on_reply valid r (get_overdues r.next_update s.overdue r.now) s)
      calm.script
    ∙ ap (λ x. update_both r x (update_overdue valid (as_members early) false) s)
        (update_overdue-goroutine valid true late valid_late)
    ∙ ap (λ x. update_both r (goroutine true late, true) x s)
        (update_overdue-goroutine valid false early valid_early)
    ∙ ap (λ n. wait n true (interleave r.schedule (goroutine true late) (goroutine false early)) s)
        calm.completes
