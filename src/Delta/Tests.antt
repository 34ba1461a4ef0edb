-- ===== src/Delta/Tests.antt =====
-- A schedule of a delta: one entity to create, one to delete, one that changed, one that did not.
use icingadb.Prelude.{
  String, List, [], ◌∷◌, none, some, true, false, ◌≡◌, refl, inl, inr, str_eq, Bool-cases,
}
use icingadb.Delta.{
  Entity, SyncSubject, Delta, Recv, recv_actual, recv_desired, end_actual, end_desired, finished,
  run, entities_equal,
}
use icingadb.Delta.Spec.{IsComparable}
use icingadb.Delta.Result.{IsDelta, run-IsDelta}

record Row : Type 0 where
  name : String
  properties_checksum : String

instance abbrev row_entity : Entity Row
row_entity = record {
  id = λ r. r.name;
  checksum = λ r. some r.properties_checksum;
  equal = λ r. none;
}

row_IsComparable : IsComparable row_entity
unfolding entities_equal
row_IsComparable a d = elim (Bool-cases (str_eq a.properties_checksum d.properties_checksum)) [
  | inl e ↦ inl (rw e)
  | inr e ↦ inr (rw e)
]

abbrev row : String → String → Row
row n c = record { name = n; properties_checksum = c }

abbrev hosts : SyncSubject
hosts = record { entity_equaler = false; with_checksum = true }

abbrev schedule : List (Recv Row)
schedule =
    recv_actual (row "a" "1")
    ∷ recv_desired (row "b" "1")
    ∷ recv_actual (row "b" "2")
    ∷ recv_desired (row "d" "1")
    ∷ recv_desired (row "c" "3")
    ∷ end_desired
    ∷ recv_actual (row "c" "3")
    ∷ end_actual
    ∷ []

run-IsDelta_example :
    (δ : Delta Row) × (run hosts schedule ≡ finished δ)
    × IsDelta true
        (row "c" "3" ∷ row "b" "2" ∷ row "a" "1" ∷ [])
        (row "c" "3" ∷ row "d" "1" ∷ row "b" "1" ∷ [])
        δ
run-IsDelta_example =
    run-IsDelta hosts schedule row_IsComparable refl refl refl (refl, (refl, (refl, tt)))
      (refl, (refl, (refl, tt)))
