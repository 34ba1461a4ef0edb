-- ===== src/Migration/StartTimes/Future.antt =====
-- An end without a start before it, in a run that is resumed.
use icingadb.Prelude.{
  ℕ, suc, ◌<◌, List, [], ◌∷◌, All, Bool, true, false, Option, none, some, length, if◌then◌else◌,
  ◌==◌, ◌≡◌, refl, ap, ◌∙◌,
}
use icingadb.Migration.CacheTables.{select_by}
use icingadb.Migration.Slices.{rows_beyond}
use icingadb.Migration.Slices.Lists.{fold, filter_all}
use icingadb.Migration.StartTimes.{
  EventRow, EventCache, no_events, on_end, on_start, cache_event, max_id, above,
  build_event_time_cache,
}
use icingadb.Migration.StartTimes.Saved.{time_of, IsAscending, forget, build-fold, build-whole}
use icingadb.Migration.StartTimes.Alike.{IsStart, on_start-select}
use icingadb.Migration.StartTimes.Resumed.{IsEnd}

abbrev time_or : Option (ℕ × ℕ) → Option (ℕ × ℕ) → Option (ℕ × ℕ)
time_or none o = o
time_or (some t) o = some t

-- The time of the object's latest start among rows that are starts.
abbrev pub latest_start : ℕ → List EventRow → Option (ℕ × ℕ)
latest_start o [] = none
latest_start o (r ∷ rs) =
    time_or (latest_start o rs) (if r.object_id == o then some (time_of r) else none)

-- What starts do to the cache.
starts-saved :
    (ss : List EventRow) (c : EventCache)
    → All IsStart ss
    → (fold cache_event ss c).end_start_time ≡ c.end_start_time
unfolding cache_event
starts-saved [] c starts = refl
starts-saved (r ∷ rs) c starts =
    ap
      (λ b.
        (fold cache_event rs (
          if b
          then on_end r (select_by r.object_id c.last_start_time) c
          else on_start r c)).end_start_time)
      starts.0
    ∙ starts-saved rs (on_start r c) starts.1

starts-select :
    (o : ℕ) (ss : List EventRow) (c : EventCache)
    → All IsStart ss
    → select_by o (fold cache_event ss c).last_start_time
      ≡ time_or (latest_start o ss) (select_by o c.last_start_time)
unfolding cache_event
starts-select o [] c starts = refl
starts-select o (r ∷ rs) c starts =
    ap
      (λ b.
        select_by o
          (fold cache_event rs (
            if b
            then on_end r (select_by r.object_id c.last_start_time) c
            else on_start r c)).last_start_time)
      starts.0
    ∙ starts-select o rs (on_start r c) starts.1
    ∙ ap (time_or (latest_start o rs)) (on_start-select r c o)
    ∙ by_test (latest_start o rs) (r.object_id == o)
  where
    by_test :
        (l : Option (ℕ × ℕ)) (b : Bool)
        → time_or l (if b then some (time_of r) else select_by o c.last_start_time)
          ≡ time_or
              (time_or l (if b then some (time_of r) else none))
              (select_by o c.last_start_time)
    by_test (some t) b = refl
    by_test none true = refl
    by_test none false = refl

module _ (e : EventRow) (ss : List EventRow) (end : IsEnd e) (starts : All IsStart ss) (t : ℕ × ℕ)
    (found : latest_start e.object_id ss ≡ some t) where
  abbrev from_later : EventCache
  from_later = record { end_start_time = (e.id, t) ∷ []; last_start_time = [] }

  abbrev after_both : EventCache
  after_both = fold cache_event (e ∷ ss) no_events

  on_first :
      (o : Option (ℕ × ℕ)) (c : EventCache)
      → select_by e.object_id c.last_start_time ≡ o
      → cache_event e c ≡ on_end e o c
  unfolding cache_event
  on_first o c is =
      ap (λ b. if b then on_end e (select_by e.object_id c.last_start_time) c else on_start e c) end
      ∙ ap (λ o. on_end e o c) is

  once : after_both ≡ fold cache_event ss no_events
  once = ap (fold cache_event ss) (on_first none no_events refl)

  saved_none : after_both.end_start_time ≡ []
  saved_none = ap (λ (c : EventCache). c.end_start_time) once ∙ starts-saved ss no_events starts

  remembered : select_by e.object_id after_both.last_start_time ≡ some t
  remembered =
      ap (λ (c : EventCache). select_by e.object_id c.last_start_time) once
      ∙ starts-select e.object_id ss no_events starts
      ∙ ap (λ o. time_or o none) found

  abbrev forgotten : List (ℕ × (ℕ × ℕ)) → EventCache
  forgotten m = record { end_start_time = m; last_start_time = [] }

  twice : forget (fold cache_event (e ∷ ss) after_both) ≡ from_later
  twice =
      ap (λ (c : EventCache). forget (fold cache_event ss c))
        (on_first (some t) after_both remembered)
      ∙ ap forgotten (starts-saved ss (on_end e (some t) after_both) starts)
      ∙ ap (λ m. forgotten ((e.id, t) ∷ m)) saved_none

  -- For a history that is an end and, after it, any number of starts, and no other end: a run that is started on what
  -- another one had committed after all of its rows gives the end the time of the latest start of its object, if
  -- there is one, where a run that was not interrupted gives it none.
  pub build-later_start :
      (bulk fuel : ℕ)
      → IsAscending (e ∷ ss)
      → All (λ (r : EventRow). above 0 r.id ≡ true) (e ∷ ss)
      → length (e ∷ ss) < fuel
      → (build_event_time_cache (suc bulk) fuel (e ∷ ss) (fold cache_event (e ∷ ss) no_events)
          ≡ some (record { end_start_time = (e.id, t) ∷ []; last_start_time = [] }))
        × (build_event_time_cache (suc bulk) fuel (e ∷ ss) no_events ≡ some no_events)
  build-later_start bulk fuel ordered positive enough = (
    build-fold bulk fuel (e ∷ ss) ordered enough after_both
        ∙ ap (λ m. some (forget (fold cache_event (rows_above (max_id m)) after_both))) saved_none
        ∙ ap (λ rs. some (forget (fold cache_event rs after_both)))
            (filter_all (λ (r : EventRow). above 0 r.id) (e ∷ ss) positive)
        ∙ ap (λ (c : EventCache). some c) twice,
    build-whole bulk fuel (e ∷ ss) ordered enough positive
        ∙ ap (λ m. some (forgotten m)) saved_none,
  )
    where
      rows_above : ℕ → List EventRow
      rows_above k = rows_beyond (λ (r : EventRow). r.id) above (e ∷ ss) k
