-- ===== src/Migration/Flapping/Pairs.antt =====
-- The starts and ends of flapping, and the history that refers to them.
use icingadb.Prelude.{
  ℕ, String, List, [], ◌∷◌, ◌++◌, All, All-map, Bool, true, false, Option, none, some,
  if◌then◌else◌, ◌==◌, ◌≡◌, ◌⊎◌, inl, inr, refl,
}
use icingadb.Migration.{Hash, Time, convert_time}
use icingadb.Migration.Tables.{All-appended}
use icingadb.Migration.Flapping.{
  FlappingRow, CachedStart, FlappingHistory, HistoryFlapping, FlappingStages, flapping_event,
  add_end, add_start, on_event, convert_flapping, no_flapping, start_by_id, last_row,
  convert_flapping_rows,
}

-- An entry of a table has the event's ID and its times.
abbrev pub HasTimes : HistoryFlapping → List FlappingHistory → Type 0
HasTimes h [] = ⊥
HasTimes h (f ∷ fs) =
    ((f.id ≡ h.flapping_history_id) × (f.start_time ≡ h.start_time) × (f.end_time ≡ h.end_time))
    ⊎ HasTimes h fs

-- A start refers to an entry that is inserted, and an end to one that is upserted after these.
abbrev pub IsPaired : FlappingStages → HistoryFlapping → Type 0
IsPaired out h =
    ((h.event_type ≡ "flapping_start") × HasTimes h out.flapping_history)
    ⊎ ((h.event_type ≡ "flapping_end") × HasTimes h out.flapping_history_upserts)

abbrev pub AllPaired : FlappingStages → Type 0
AllPaired out = All (IsPaired out) out.all_history

HasTimes-append :
    (h : HistoryFlapping) (xs ys : List FlappingHistory) → HasTimes h xs → HasTimes h (xs ++ ys)
HasTimes-append h [] ys there = absurd there
HasTimes-append h (x ∷ xs) ys (inl e) = inl e
HasTimes-append h (x ∷ xs) ys (inr there) = inr (HasTimes-append h xs ys there)

HasTimes-appended :
    (h : HistoryFlapping) (xs ys : List FlappingHistory) → HasTimes h ys → HasTimes h (xs ++ ys)
HasTimes-appended h [] ys there = there
HasTimes-appended h (x ∷ xs) ys there = inr (HasTimes-appended h xs ys there)

-- The tables only grow.
IsPaired-grows :
    (out out' : FlappingStages) (h : HistoryFlapping)
    → (HasTimes h out.flapping_history → HasTimes h out'.flapping_history)
    → (HasTimes h out.flapping_history_upserts → HasTimes h out'.flapping_history_upserts)
    → IsPaired out h
    → IsPaired out' h
IsPaired-grows out out' h starts ends (inl (e, there)) = inl (e, starts there)
IsPaired-grows out out' h starts ends (inr (e, there)) = inr (e, ends there)

add_start-AllPaired :
    (hash : Hash) (env : String) (r : FlappingRow) (ts : Time) (out : FlappingStages)
    → AllPaired out
    → AllPaired (add_start hash env r ts out)
add_start-AllPaired hash env r ts out paired =
    let out' = add_start hash env r ts out in
    let h = flapping_event hash env "flapping_start" r ts none in
    All-appended (IsPaired out') out.all_history h
      (All-map out.all_history
        (λ x p.
          IsPaired-grows out out' x (λ there. HasTimes-append x out.flapping_history _ there)
            (λ there. there) p)
        paired)
      (inl (refl, HasTimes-appended h out.flapping_history _ (inl (refl, refl, refl))))

add_end-AllPaired :
    (hash : Hash) (env : String) (r : FlappingRow) (ts : Time) (o : Option Time)
    (out : FlappingStages)
    → AllPaired out
    → AllPaired (add_end hash env r ts o out)
add_end-AllPaired hash env r ts none out paired = paired
add_end-AllPaired hash env r ts (some start) out paired =
    let out' = add_end hash env r ts (some start) out in
    let h = flapping_event hash env "flapping_end" r start ts in
    All-appended (IsPaired out') out.all_history h
      (All-map out.all_history
        (λ x p.
          IsPaired-grows out out' x (λ there. there)
            (λ there. HasTimes-append x out.flapping_history_upserts _ there) p)
        paired)
      (inr (refl, HasTimes-appended h out.flapping_history_upserts _ (inl (refl, refl, refl))))

on_event-AllPaired :
    (hash : Hash) (env : String) (cached : ℕ → Option Time) (r : FlappingRow) (o : Option ℕ)
    (out : FlappingStages)
    → AllPaired out
    → AllPaired (on_event hash env cached r o out)
on_event-AllPaired hash env cached r none out paired = paired
on_event-AllPaired hash env cached r (some time) out paired = by_type (r.event_type == 1001)
  where
    by_type :
        (b : Bool)
        → AllPaired (
            if b
            then add_end hash env r (convert_time time r.event_time_usec) (cached r.id) out
            else add_start hash env r (convert_time time r.event_time_usec) out)
    by_type true =
        add_end-AllPaired hash env r (convert_time time r.event_time_usec) (cached r.id) out paired
    by_type false = add_start-AllPaired hash env r (convert_time time r.event_time_usec) out paired

convert_flapping-AllPaired :
    (hash : Hash) (env : String) (cached : ℕ → Option Time) (rs : List FlappingRow)
    (out : FlappingStages)
    → AllPaired out
    → AllPaired (convert_flapping hash env cached rs out)
unfolding convert_flapping
convert_flapping-AllPaired hash env cached [] out paired = paired
convert_flapping-AllPaired hash env cached (r ∷ rs) out paired =
    convert_flapping-AllPaired hash env cached rs _ (
      on_event-AllPaired hash env cached r r.event_time (record out { checkpoint = some r.id })
        paired)

-- Whatever the rows and the cache are: every start of flapping in the history refers to an entry that is
-- inserted, and every end to one that is upserted after these, with the event's times.
pub convert_flapping_rows-AllPaired :
    (hash : Hash) (env : String) (select_cache : ℕ → ℕ → List CachedStart) (rows : List FlappingRow)
    → AllPaired (convert_flapping_rows hash env select_cache rows)
unfolding convert_flapping_rows
convert_flapping_rows-AllPaired hash env select_cache [] = tt
convert_flapping_rows-AllPaired hash env select_cache (r ∷ rs) =
    convert_flapping-AllPaired hash env (start_by_id (select_cache r.id (last_row r rs))) (r ∷ rs)
      no_flapping tt
