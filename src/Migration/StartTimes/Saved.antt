-- ===== src/Migration/StartTimes/Saved.antt =====
-- What the cache holds in the end: for each end, the start of its object before it.
use icingadb.Prelude.{
  ℕ, suc, ◌+◌, ◌<◌, List, [], ◌∷◌, All, count, length, Bool, true, false, Option, none, some,
  if◌then◌else◌, ◌==◌, ◌≡◌, refl, arith, Bool-cases, inl, inr, ap, ◌∙◌, subst, ==_iff,
}
use icingadb.Migration.CacheTables.{select_by, delete_by, select_by-delete_by, select_by-deleted}
use icingadb.Migration.Slices.{rows_beyond}
use icingadb.Migration.Slices.Lists.{fold, last, filter_all, length-filter}
use icingadb.Migration.Slices.Folds.{IdOrder, IsOrdered, row_by_row, slice_ido_history-fold}
use icingadb.Migration.StartTimes.{
  EventRow, EventCache, no_events, on_end, on_start, cache_event, cache_events, max_id, above,
  build_event_time_cache,
}

abbrev pub time_of : EventRow → ℕ × ℕ
time_of r = (r.event_time, r.event_time_usec)

-- The time of the object's latest event, where that is a start; the rows go back in time.
abbrev pub start_before : ℕ → List EventRow → Option (ℕ × ℕ)
start_before o [] = none
start_before o (r ∷ past) =
    if r.object_id == o
    then (if r.event_is_start == 0 then none else some (time_of r))
    else start_before o past

abbrev pub saved_with : ℕ → Option (ℕ × ℕ) → List (ℕ × (ℕ × ℕ)) → List (ℕ × (ℕ × ℕ))
saved_with h none rest = rest
saved_with h (some t) rest = (h, t) ∷ rest

-- The start times of the rows that are ends, after the rows of the past.
abbrev pub start_times : List EventRow → List EventRow → List (ℕ × (ℕ × ℕ))
start_times past [] = []
start_times past (r ∷ rs) =
    let rest = start_times (r ∷ past) rs in
    if r.event_is_start == 0 then saved_with r.id (start_before r.object_id past) rest else rest

-- The cache knows for each object whether its latest event is a start, and its time.
abbrev pub Remembers : List EventRow → EventCache → Type 0
Remembers past c = (o : ℕ) → select_by o c.last_start_time ≡ start_before o past

start-Remembers :
    (past : List EventRow) (r : EventRow) (c : EventCache)
    → Remembers past c
    → (r.event_is_start == 0) ≡ false
    → Remembers (r ∷ past) (on_start r c)
start-Remembers past r c known start o = elim (Bool-cases (r.object_id == o)) [
  | inl here ↦ rw (here, start) refl
  | inr there ↦ rw there (select_by-delete_by r.object_id o c.last_start_time there ∙ known o)
]

end-Remembers :
    (past : List EventRow) (r : EventRow) (c : EventCache)
    → Remembers past c
    → (r.event_is_start == 0) ≡ true
    → (t : Option (ℕ × ℕ)) → select_by r.object_id c.last_start_time ≡ t
    → Remembers (r ∷ past) (on_end r t c)
end-Remembers past r c known end none e o = elim (Bool-cases (r.object_id == o)) [
  | inl here ↦
      let is : r.object_id ≡ o = (==_iff r.object_id o).0 here in
      let nothing : select_by o c.last_start_time ≡ none =
        subst (λ x. select_by x c.last_start_time ≡ none) is e in
      rw (here, end) nothing
  | inr there ↦ rw there (known o)
]
end-Remembers past r c known end (some t) e o = elim (Bool-cases (r.object_id == o)) [
  | inl here ↦
      let is : r.object_id ≡ o = (==_iff r.object_id o).0 here in
      let gone : select_by o (delete_by r.object_id c.last_start_time) ≡ none =
        subst (λ x. select_by x (delete_by r.object_id c.last_start_time) ≡ none) is
          (select_by-deleted r.object_id c.last_start_time) in
      rw (here, end) gone
  | inr there ↦ rw there (select_by-delete_by r.object_id o c.last_start_time there ∙ known o)
]

-- What a row does, by whether it is an end.
pub on_kind :
    (P : EventCache → Type 0) (r : EventRow) (c : EventCache)
    → ((r.event_is_start == 0) ≡ true → P (on_end r (select_by r.object_id c.last_start_time) c))
    → ((r.event_is_start == 0) ≡ false → P (on_start r c))
    → P (cache_event r c)
unfolding cache_event
on_kind P r c end start = by_test (r.event_is_start == 0) end start
  where
    by_test :
        (b : Bool)
        → (b ≡ true → P (on_end r (select_by r.object_id c.last_start_time) c))
        → (b ≡ false → P (on_start r c))
        → P (if b then on_end r (select_by r.object_id c.last_start_time) c else on_start r c)
    by_test true end start = end refl
    by_test false end start = start refl

pub cache_event-Remembers :
    (past : List EventRow) (r : EventRow) (c : EventCache)
    → Remembers past c
    → Remembers (r ∷ past) (cache_event r c)
cache_event-Remembers past r c known =
    on_kind (Remembers (r ∷ past)) r c
      (λ end. end-Remembers past r c known end (select_by r.object_id c.last_start_time) refl)
      (λ start. start-Remembers past r c known start)

module _ (q : ℕ × (ℕ × ℕ) → Bool) where
  on_end-saves :
      (r : EventRow) (t : Option (ℕ × ℕ)) (c : EventCache) (rest : List (ℕ × (ℕ × ℕ)))
      → count q (on_end r t c).end_start_time + count q rest
        ≡ count q c.end_start_time + count q (saved_with r.id t rest)
  on_end-saves r none c rest = refl
  on_end-saves r (some t) c rest = omega arith

  cache_event-saves :
      (past : List EventRow) (r : EventRow) (rs : List EventRow) (c : EventCache)
      → Remembers past c
      → count q (cache_event r c).end_start_time + count q (start_times (r ∷ past) rs)
        ≡ count q c.end_start_time + count q (start_times past (r ∷ rs))
  cache_event-saves past r rs c known =
      let rest = start_times (r ∷ past) rs in
      on_kind
        (λ (c' : EventCache).
          count q c'.end_start_time + count q rest
          ≡ count q c.end_start_time + count q (start_times past (r ∷ rs)))
        r c
        (λ end.
          on_end-saves r (select_by r.object_id c.last_start_time) c rest
          ∙ ap (λ t. count q c.end_start_time + count q (saved_with r.id t rest))
              (known r.object_id)
          ∙ rw end refl)
        (λ start. rw start refl)

  fold-saves :
      (past rows : List EventRow) (c : EventCache)
      → Remembers past c
      → count q (fold cache_event rows c).end_start_time
        ≡ count q c.end_start_time + count q (start_times past rows)
  fold-saves past [] c known = omega arith
  fold-saves past (r ∷ rs) c known =
      let rest =
        fold-saves (r ∷ past) rs (cache_event r c) (cache_event-Remembers past r c known) in
      omega (arith, rest, cache_event-saves past r rs c known)

abbrev pub event_id : EventRow → ℕ
event_id r = r.id

-- The rows are those of a query that is ordered by ascending IDs.
abbrev pub IsAscending : List EventRow → Type 0
IsAscending = IsOrdered event_id above

pub ascending : IdOrder above
ascending = record {
  asymmetric = λ a b h. ground (arith, h);
  transitive = λ a b c h h'. ground (arith, h, h');
}

cache_events-last :
    (r : EventRow) (rs : List EventRow) (c : EventCache)
    → cache_events (some r.id) rs c ≡ (fold cache_event rs c, some (event_id (last r rs)))
unfolding cache_events
cache_events-last r [] c = refl
cache_events-last r (r' ∷ rs) c = cache_events-last r' rs (cache_event r' c)

cache_events-row_by_row :
    (rs : List EventRow) (c : EventCache)
    → cache_events none rs c ≡ row_by_row event_id above cache_event rs c
unfolding cache_events
cache_events-row_by_row [] c = refl
cache_events-row_by_row (r ∷ rs) c = cache_events-last r rs (cache_event r c)

abbrev pub forget : EventCache → EventCache
forget c = record c { last_start_time = [] }

module _ (bulk fuel : ℕ) (rows : List EventRow) (ordered : IsAscending rows)
    (enough : length rows < fuel) where
  -- The cache is filled from its checkpoint on.
  pub build-fold :
      (c : EventCache)
      → build_event_time_cache (suc bulk) fuel rows c
        ≡ some (
            forget (fold cache_event (rows_beyond event_id above rows (max_id c.end_start_time)) c))
  unfolding build_event_time_cache
  build-fold c =
      let k = max_id c.end_start_time in
      let shorter = length-filter (λ (r : EventRow). above k r.id) rows in
      ap (λ o. elim o [ none ↦ none | some c' ↦ some (forget c') ])
        (slice_ido_history-fold event_id above ascending (cache_events none) cache_event
          cache_events-row_by_row rows ordered bulk fuel k c (omega (arith, shorter, enough)))

  pub build-whole :
      All (λ (r : EventRow). above 0 r.id ≡ true) rows
      → build_event_time_cache (suc bulk) fuel rows no_events
        ≡ some (forget (fold cache_event rows no_events))
  build-whole positive =
      build-fold no_events
      ∙ ap (λ rs. some (forget (fold cache_event rs no_events)))
          (filter_all (λ (r : EventRow). above 0 r.id) rows positive)

  -- For positive IDs, more fuel than rows and slices of any size: the cache is built, and it has exactly the
  -- start times of the ends whose object's latest event before them is a start.
  pub build-start_times :
      All (λ (r : EventRow). above 0 r.id ≡ true) rows
      → (c : EventCache) × (build_event_time_cache (suc bulk) fuel rows no_events ≡ some c)
        × ((q : ℕ × (ℕ × ℕ) → Bool) → count q c.end_start_time ≡ count q (start_times [] rows))
  build-start_times positive = (
    forget (fold cache_event rows no_events),
    build-whole positive,
    λ q. omega (arith, fold-saves q [] rows no_events (λ o. refl)),
  )
