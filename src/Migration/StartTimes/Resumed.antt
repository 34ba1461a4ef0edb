-- ===== src/Migration/StartTimes/Resumed.antt =====
-- An interrupted run is resumed after its last saved end.
use icingadb.Prelude.{
  ℕ, suc, ◌<◌, ◌≤◌, List, [], ◌∷◌, ◌++◌, append_assoc, All, length, true, false, Option, none, some,
  is_some, ◌==◌, ltb, ltb→lt, ◌≡◌, refl, arith, Bool-cases, inl, inr, ◌⊎◌, sym, ap, ◌∙◌, subst,
}
use icingadb.Migration.CacheTables.{select_by}
use icingadb.Migration.Slices.{rows_beyond}
use icingadb.Migration.Slices.Lists.{fold, filter_all, fold-append}
use icingadb.Migration.Slices.Folds.{filter-after, IsOrdered-before}
use icingadb.Migration.StartTimes.{
  EventRow, EventCache, no_events, on_end, cache_event, max_id, above, build_event_time_cache,
}
use icingadb.Migration.StartTimes.Saved.{
  start_before, Remembers, on_kind, cache_event-Remembers, event_id, IsAscending, ascending, forget,
  build-fold, build-whole,
}
use icingadb.Migration.StartTimes.Alike.{IsStart, starts-saved, fold-starts_again}

abbrev pub IsEnd : EventRow → Type 0
IsEnd r = (r.event_is_start == 0) ≡ true

-- Every end comes after a start of its object, with no end between.
abbrev pub ArePaired : List EventRow → List EventRow → Type 0
ArePaired past [] = Unit
ArePaired past (r ∷ rs) =
    (IsEnd r → is_some (start_before r.object_id past) ≡ true) × ArePaired (r ∷ past) rs

-- The last end among rows.
record LastEnd (rows : List EventRow) : Type 0 where
  before : List EventRow
  row : EventRow
  after : List EventRow
  whole : rows ≡ before ++ row ∷ after
  is_end : IsEnd row
  starts : All IsStart after

last_end : (rows : List EventRow) → All IsStart rows ⊎ LastEnd rows
last_end [] = inl tt
last_end (r ∷ rs) = elim (last_end rs) [
  | inr l ↦ inr (record {
    before = r ∷ l.before;
    row = l.row;
    after = l.after;
    whole = ap (λ xs. r ∷ xs) l.whole;
    is_end = l.is_end;
    starts = l.starts;
  })
  | inl starts ↦ elim (Bool-cases (r.event_is_start == 0)) [
    | inl end ↦
        inr
          (record { before = []; row = r; after = rs; whole = refl; is_end = end; starts = starts })
    | inr start ↦ inl (start, starts)
  ]
]

max_id-cons :
    (h b : ℕ) (t : ℕ × ℕ) (m : List (ℕ × (ℕ × ℕ))) → h ≤ b → max_id m ≤ b → max_id ((h, t) ∷ m) ≤ b
max_id-cons h b t m le le' = ground (arith, le, le')

max_id-first : (h : ℕ) (t : ℕ × ℕ) (m : List (ℕ × (ℕ × ℕ))) → max_id m ≤ h → max_id ((h, t) ∷ m) ≡ h
max_id-first h t m le = let no : ltb h (max_id m) ≡ false = ground (arith, le) in rw no refl

max_id-fold :
    (b : ℕ) (rows : List EventRow) (c : EventCache)
    → All (λ (r : EventRow). above r.id b ≡ true) rows
    → max_id c.end_start_time ≤ b
    → max_id (fold cache_event rows c).end_start_time ≤ b
max_id-fold b [] c all le = le
max_id-fold b (r ∷ rs) c all le =
    let less = ltb→lt r.id b all.0 in
    max_id-fold b rs (cache_event r c) all.1 (
      on_kind (λ (d : EventCache). max_id d.end_start_time ≤ b) r c
        (λ end. ended (select_by r.object_id c.last_start_time) (omega (arith, less)))
        (λ start. le))
  where
    ended : (t : Option (ℕ × ℕ)) → r.id ≤ b → max_id (on_end r t c).end_start_time ≤ b
    ended none le' = le
    ended (some t) le' = max_id-cons r.id b t c.end_start_time le' le

paired-some :
    (past xs : List EventRow) (e : EventRow) (ys : List EventRow) (c : EventCache)
    → Remembers past c
    → ArePaired past (xs ++ e ∷ ys)
    → IsEnd e
    → is_some (select_by e.object_id (fold cache_event xs c).last_start_time) ≡ true
paired-some past [] e ys c known paired end = ap is_some (known e.object_id) ∙ paired.0 end
paired-some past (x ∷ xs) e ys c known paired end =
    paired-some (x ∷ past) xs e ys (cache_event x c) (cache_event-Remembers past x c known) paired.1
      end

-- The checkpoint is the end that is saved last.
on_end-max :
    (e : EventRow) (c : EventCache)
    → IsEnd e
    → is_some (select_by e.object_id c.last_start_time) ≡ true
    → max_id c.end_start_time ≤ e.id
    → max_id (cache_event e c).end_start_time ≡ e.id
on_end-max e c end found le =
    on_kind (λ (d : EventCache). max_id d.end_start_time ≡ e.id) e c
      (λ _. saved (select_by e.object_id c.last_start_time) found) (λ start. let no = end in cc)
  where
    saved : (t : Option (ℕ × ℕ)) → is_some t ≡ true → max_id (on_end e t c).end_start_time ≡ e.id
    saved none empty = cc
    saved (some t) there = max_id-first e.id t c.end_start_time le

module _ (bulk fuel : ℕ) (ys : List EventRow) where
  -- What is handled after the checkpoint: starts that were handled before, and the rows that were not.
  resumed_from :
      (xs zs : List EventRow) (c' : EventCache)
      → IsAscending (xs ++ ys)
      → length (xs ++ ys) < fuel
      → All (λ (r : EventRow). above 0 r.id ≡ true) (xs ++ ys)
      → All IsStart zs
      → fold cache_event zs c' ≡ fold cache_event xs no_events
      → rows_beyond event_id above (xs ++ ys) (max_id c'.end_start_time) ≡ zs ++ ys
      → build_event_time_cache (suc bulk) fuel (xs ++ ys) (fold cache_event xs no_events)
        ≡ build_event_time_cache (suc bulk) fuel (xs ++ ys) no_events
  resumed_from xs zs c' ordered enough positive starts reached rest =
      let c = fold cache_event zs c' in
      let checkpoint : max_id (fold cache_event xs no_events).end_start_time
          ≡ max_id c'.end_start_time =
        ap (λ (d : EventCache). max_id d.end_start_time) (sym reached)
        ∙ ap max_id (starts-saved zs c' starts) in
      build-fold bulk fuel (xs ++ ys) ordered enough (fold cache_event xs no_events)
      ∙ ap
          (λ k. some (
            forget (
              fold cache_event (rows_beyond event_id above (xs ++ ys) k)
                (fold cache_event xs no_events))))
          checkpoint
      ∙ ap (λ rows. some (forget (fold cache_event rows (fold cache_event xs no_events)))) rest
      ∙ ap (λ (d : EventCache). some (forget (fold cache_event (zs ++ ys) d))) (sym reached)
      ∙ ap (λ m. some (forget (record c { end_start_time = m })))
          (fold-starts_again zs ys c' starts)
      ∙ ap (λ (d : EventCache). some (forget (fold cache_event ys d))) reached
      ∙ ap (λ (d : EventCache). some (forget d)) (fold-append cache_event xs ys no_events)
      ∙ sym (build-whole bulk fuel (xs ++ ys) ordered enough positive)

  -- A history in which every end comes after its start: a run that was interrupted after some rows builds
  -- what a run would have built that was not interrupted.
  pub build-resumed_starts :
      (xs : List EventRow)
      → IsAscending (xs ++ ys)
      → length (xs ++ ys) < fuel
      → All (λ (r : EventRow). above 0 r.id ≡ true) (xs ++ ys)
      → ArePaired [] (xs ++ ys)
      → build_event_time_cache (suc bulk) fuel (xs ++ ys) (fold cache_event xs no_events)
        ≡ build_event_time_cache (suc bulk) fuel (xs ++ ys) no_events
  build-resumed_starts xs ordered enough positive paired = elim (last_end xs) [
    | inl starts ↦
        resumed_from xs xs no_events ordered enough positive starts refl
          (filter_all (λ (r : EventRow). above 0 r.id) (xs ++ ys) positive)
    | inr l ↦ after_end l
  ]
    where
      after_end :
          LastEnd xs
          → build_event_time_cache (suc bulk) fuel (xs ++ ys) (fold cache_event xs no_events)
            ≡ build_event_time_cache (suc bulk) fuel (xs ++ ys) no_events
      after_end l =
          let assoc : xs ++ ys ≡ l.before ++ l.row ∷ (l.after ++ ys) =
            ap (λ (rs : List EventRow). rs ++ ys) l.whole
            ∙ append_assoc l.before (l.row ∷ l.after) ys in
          let c = fold cache_event l.before no_events in
          let ordered' : IsAscending (l.before ++ l.row ∷ (l.after ++ ys)) =
            subst IsAscending assoc ordered in
          let paired' : ArePaired [] (l.before ++ l.row ∷ (l.after ++ ys)) =
            subst (ArePaired []) assoc paired in
          let found =
            paired-some [] l.before l.row (l.after ++ ys) no_events (λ o. refl) paired' l.is_end in
          let earlier = IsOrdered-before event_id above l.before l.row (l.after ++ ys) ordered' in
          let at_end =
            on_end-max l.row c l.is_end found
              (max_id-fold l.row.id l.before no_events earlier (omega arith)) in
          resumed_from xs l.after (cache_event l.row c) ordered enough positive l.starts
            (fold-append cache_event l.before (l.row ∷ l.after) no_events
              ∙ ap (λ rs. fold cache_event rs no_events) (sym l.whole))
            (ap (rows_beyond event_id above (xs ++ ys)) at_end
              ∙ ap (λ rs. rows_beyond event_id above rs l.row.id) assoc
              ∙ filter-after event_id above ascending l.before l.row (l.after ++ ys) ordered')
