-- ===== src/Migration/HardStates/Tests.antt =====
-- The examples of the cache of previous hard states.
use icingadb.Prelude.{ℕ, List, [], ◌∷◌, ◌++◌, count, Bool, some, ◌≡◌, refl, arith}
use icingadb.Migration.HardStates.{
  HardRow, HardCache, empty_cache, cache_row, build_previous_hard_state_cache,
}
use icingadb.Migration.HardStates.Awaited.{previous_states}
use icingadb.Migration.Slices.Lists.{fold}
use icingadb.Migration.HardStates.Resumed.{build-previous_states, build-resumed}

abbrev row : ℕ → ℕ → ℕ → HardRow
row i o s = record { id = i; object_id = o; last_hard_state = s }

-- Two objects, the first of which goes from 0 to 2.
abbrev newer : List HardRow
newer = row 9 1 2 ∷ row 7 2 1 ∷ []

abbrev older : List HardRow
older = row 6 1 2 ∷ row 3 1 0 ∷ []

build-previous_states_example :
    (c : HardCache) × (build_previous_hard_state_cache 2 9 (newer ++ older) empty_cache ≡ some c)
    × ((q : ℕ × ℕ → Bool)
        → count q c.previous_hard_state ≡ count q (previous_states (newer ++ older)))
build-previous_states_example =
    build-previous_states 1 9 (newer ++ older)
      ((refl, (refl, (refl, tt))), ((refl, (refl, tt)), ((refl, tt), (tt, tt)))) (omega arith)
      (refl, (refl, (refl, (refl, tt))))

build-resumed_example :
    build_previous_hard_state_cache 2 9 (newer ++ older) (fold cache_row newer empty_cache)
    ≡ build_previous_hard_state_cache 2 9 (newer ++ older) empty_cache
build-resumed_example =
    build-resumed 1 9 newer older
      ((refl, (refl, (refl, tt))), ((refl, (refl, tt)), ((refl, tt), (tt, tt)))) (omega arith)
      (refl, (refl, (refl, (refl, tt))))
