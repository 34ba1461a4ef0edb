-- ===== src/Migration/States/Tests.antt =====
-- A hard state of a host that IDO has as 2, and a row that is not in the cache.
use icingadb.Prelude.{ℕ, List, [], ◌∷◌, Option, none, some, ◌≡◌, refl, inl, inr}
use icingadb.Migration.Samples.{hash}
use icingadb.Migration.States.{
  StateRow, StateStages, convert_state_rows, convert_rows, StateHistory,
}
use icingadb.Migration.States.Bounds.{WellFormed, convert_state_rows-WellFormed}

abbrev row : ℕ → StateRow
row id = record {
  id = id;
  state_time = some 5;
  state_time_usec = 0;
  state = 2;
  state_type = 1;
  last_state = 0;
  last_hard_state = 0;
  objecttype_id = 1;
  name1 = "a";
  name2 = "";
}

abbrev cache : ℕ → ℕ → List (ℕ × ℕ)
cache from to = (7, 99) ∷ []

convert_state_rows-WellFormed_example :
    (out : StateStages) × (convert_state_rows hash "e" cache (row 7 ∷ row 8 ∷ []) ≡ some out)
    × WellFormed out
convert_state_rows-WellFormed_example =
    convert_state_rows-WellFormed hash "e" cache (row 7 ∷ row 8 ∷ [])
      ((inl refl, inr refl), ((inl refl, inr refl), tt))

abbrev states_of : Option StateStages → List (ℕ × ℕ)
states_of none = []
states_of (some out) = pairs out.state_history
  where
    pairs : List StateHistory → List (ℕ × ℕ)
    pairs [] = []
    pairs (h ∷ hs) = (h.hard_state, h.previous_hard_state) ∷ pairs hs

clamped : states_of (convert_state_rows hash "e" cache (row 7 ∷ row 8 ∷ [])) ≡ (1, 99) ∷ []
unfolding convert_state_rows convert_rows
clamped = refl
