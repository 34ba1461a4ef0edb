-- ===== src/Migration/StartTimes/Tests.antt =====
-- The examples of the cache of start times.
use icingadb.Prelude.{ℕ, ◌+◌, List, [], ◌∷◌, ◌++◌, count, Bool, some, ◌≡◌, refl, arith}
use icingadb.Migration.Slices.Lists.{fold}
use icingadb.Migration.StartTimes.{
  EventRow, EventCache, no_events, cache_event, build_event_time_cache,
}
use icingadb.Migration.StartTimes.Saved.{start_times, build-start_times}
use icingadb.Migration.StartTimes.Resumed.{build-resumed_starts}
use icingadb.Migration.StartTimes.Future.{build-later_start}

abbrev row : ℕ → ℕ → ℕ → EventRow
row i o s = record {
  id = i;
  event_time = 100 + i;
  event_time_usec = 0;
  event_is_start = s;
  object_id = o;
}

-- Two objects that flap, the second of which does not stop.
abbrev early : List EventRow
early = row 3 1 1 ∷ row 4 2 1 ∷ row 6 1 0 ∷ row 7 2 1 ∷ []

abbrev late : List EventRow
late = row 8 2 0 ∷ []

-- The end of the first object has no start.
abbrev lone : EventRow
lone = row 2 1 0

build-start_times_example :
    (c : EventCache) × (build_event_time_cache 2 9 (lone ∷ early) no_events ≡ some c)
    × ((q : ℕ × (ℕ × ℕ) → Bool)
        → count q c.end_start_time ≡ count q (start_times [] (lone ∷ early)))
build-start_times_example =
    build-start_times 1 9 (lone ∷ early)
      (
        (refl, (refl, (refl, (refl, tt)))),
        ((refl, (refl, (refl, tt))), ((refl, (refl, tt)), ((refl, tt), (tt, tt)))),
      )
      (omega arith) (refl, (refl, (refl, (refl, (refl, tt)))))

build-resumed_starts_example :
    build_event_time_cache 2 9 (early ++ late) (fold cache_event early no_events)
    ≡ build_event_time_cache 2 9 (early ++ late) no_events
build-resumed_starts_example =
    build-resumed_starts 1 9 late early
      (
        (refl, (refl, (refl, (refl, tt)))),
        ((refl, (refl, (refl, tt))), ((refl, (refl, tt)), ((refl, tt), (tt, tt)))),
      )
      (omega arith) (refl, (refl, (refl, (refl, (refl, tt)))))
      ((λ no. cc), ((λ no. cc), ((λ _. refl), ((λ no. cc), ((λ _. refl), tt)))))

build-later_start_example :
    (build_event_time_cache 2 9
        (lone ∷ row 3 1 1 ∷ row 4 2 1 ∷ [])
        (fold cache_event (lone ∷ row 3 1 1 ∷ row 4 2 1 ∷ []) no_events)
      ≡ some (record { end_start_time = (2, (103, 0)) ∷ []; last_start_time = [] }))
    × (build_event_time_cache 2 9 (lone ∷ row 3 1 1 ∷ row 4 2 1 ∷ []) no_events ≡ some no_events)
build-later_start_example =
    build-later_start lone (row 3 1 1 ∷ row 4 2 1 ∷ []) refl (refl, (refl, tt)) (103, 0) refl 1 9
      ((refl, (refl, tt)), ((refl, tt), (tt, tt))) (refl, (refl, (refl, tt))) (omega arith)
