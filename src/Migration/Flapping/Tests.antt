-- ===== src/Migration/Flapping/Tests.antt =====
-- A start, and its end whose start is cached.
use icingadb.Prelude.{ℕ, String, List, [], ◌∷◌, map, some, ◌≡◌, refl}
use icingadb.Migration.Samples.{hash}
use icingadb.Migration.Flapping.{
  FlappingRow, CachedStart, FlappingHistory, convert_flapping_rows, convert_flapping,
}
use icingadb.Migration.Flapping.Pairs.{AllPaired, convert_flapping_rows-AllPaired}

abbrev row : ℕ → ℕ → ℕ → FlappingRow
row id typ time = record {
  id = id;
  event_time = some time;
  event_time_usec = 0;
  event_type = typ;
  objecttype_id = 2;
  name1 = "a";
  name2 = "s";
}

abbrev cache : ℕ → ℕ → List CachedStart
cache from to = record { history_id = 2; event_time = 5; event_time_usec = 0 } ∷ []

convert_flapping_rows-AllPaired_example :
    AllPaired (convert_flapping_rows hash "e" cache (row 1 1000 5 ∷ row 2 1001 9 ∷ []))
convert_flapping_rows-AllPaired_example =
    convert_flapping_rows-AllPaired hash "e" cache (row 1 1000 5 ∷ row 2 1001 9 ∷ [])

abbrev id_of : FlappingHistory → String
id_of f = f.id

-- The end is an upsert of the entry that was inserted for the start.
same_entry :
    map id_of
      (convert_flapping_rows hash "e" cache
        (row 1 1000 5 ∷ row 2 1001 9 ∷ [])).flapping_history_upserts
    ≡ map id_of
        (convert_flapping_rows hash "e" cache (row 1 1000 5 ∷ row 2 1001 9 ∷ [])).flapping_history
unfolding convert_flapping_rows convert_flapping
same_entry = refl
