-- ===== src/Migration/StartTimes/Alike.antt =====
-- Caches that no later row tells apart, and starts that are handled again.
use icingadb.Prelude.{
  ℕ, List, [], ◌∷◌, ◌++◌, All, false, Option, none, some, if◌then◌else◌, ◌==◌, ◌≡◌, refl,
  Bool-cases, inl, inr, ◌⊎◌, sym, ap, ◌∙◌, subst, ==_iff,
}
use icingadb.Migration.CacheTables.{select_by, delete_by, select_by-delete_by, select_by-deleted}
use icingadb.Migration.Slices.Lists.{fold, fold-append}
use icingadb.Migration.StartTimes.{EventRow, EventCache, on_end, on_start, cache_event}
use icingadb.Migration.StartTimes.Saved.{time_of}

abbrev pub IsStart : EventRow → Type 0
IsStart r = (r.event_is_start == 0) ≡ false

-- Two caches that no later row tells apart.
record Alike (c d : EventCache) : Type 0 where
  saved : c.end_start_time ≡ d.end_start_time
  remembered : (o : ℕ) → select_by o c.last_start_time ≡ select_by o d.last_start_time

pub on_start-select :
    (r : EventRow) (c : EventCache) (o : ℕ)
    → select_by o (on_start r c).last_start_time
      ≡ (if r.object_id == o then some (time_of r) else select_by o c.last_start_time)
on_start-select r c o = elim (Bool-cases (r.object_id == o)) [
  | inl here ↦ rw here refl
  | inr there ↦ rw there (select_by-delete_by r.object_id o c.last_start_time there)
]

on_end-Alike :
    (r : EventRow) (c d : EventCache)
    → Alike c d
    → (t : Option (ℕ × ℕ)) → Alike (on_end r t c) (on_end r t d)
on_end-Alike r c d alike none = alike
on_end-Alike r c d alike (some t) = record {
  saved = ap (λ m. (r.id, t) ∷ m) alike.saved;
  remembered = λ o. elim (Bool-cases (r.object_id == o)) [
    | inl here ↦
        let is : r.object_id ≡ o = (==_iff r.object_id o).0 here in
        subst
          (λ x.
            select_by x (delete_by r.object_id c.last_start_time)
            ≡ select_by x (delete_by r.object_id d.last_start_time))
          is
          (select_by-deleted r.object_id c.last_start_time
            ∙ sym (select_by-deleted r.object_id d.last_start_time))
    | inr there ↦
        select_by-delete_by r.object_id o c.last_start_time there
        ∙ alike.remembered o
        ∙ sym (select_by-delete_by r.object_id o d.last_start_time there)
  ];
}

on_start-Alike : (r : EventRow) (c d : EventCache) → Alike c d → Alike (on_start r c) (on_start r d)
on_start-Alike r c d alike = record {
  saved = alike.saved;
  remembered = λ o.
      on_start-select r c o
      ∙ ap (λ (t : Option (ℕ × ℕ)). if r.object_id == o then some (time_of r) else t)
          (alike.remembered o)
      ∙ sym (on_start-select r d o);
}

cache_event-Alike :
    (r : EventRow) (c d : EventCache) → Alike c d → Alike (cache_event r c) (cache_event r d)
unfolding cache_event
cache_event-Alike r c d alike = elim (Bool-cases (r.event_is_start == 0)) [
  | inl end ↦ rw end (
      subst (λ t. Alike (on_end r (select_by r.object_id c.last_start_time) c) (on_end r t d))
        (alike.remembered r.object_id)
        (on_end-Alike r c d alike (select_by r.object_id c.last_start_time)))
  | inr start ↦ rw start (on_start-Alike r c d alike)
]

fold-Alike :
    (rows : List EventRow) (c d : EventCache)
    → Alike c d
    → (fold cache_event rows c).end_start_time ≡ (fold cache_event rows d).end_start_time
fold-Alike [] c d alike = alike.saved
fold-Alike (r ∷ rs) c d alike =
    fold-Alike rs (cache_event r c) (cache_event r d) (cache_event-Alike r c d alike)

-- What starts leave of what is remembered of an object.
abbrev latest : ℕ → List EventRow → Option (ℕ × ℕ) → Option (ℕ × ℕ)
latest o [] t = t
latest o (r ∷ rs) t = latest o rs (if r.object_id == o then some (time_of r) else t)

latest-cases :
    (o : ℕ) (rs : List EventRow)
    → ((t t' : Option (ℕ × ℕ)) → latest o rs t ≡ latest o rs t')
      ⊎ ((t : Option (ℕ × ℕ)) → latest o rs t ≡ t)
latest-cases o [] = inr (λ t. refl)
latest-cases o (r ∷ rs) = elim (Bool-cases (r.object_id == o)) [
  | inl here ↦ inl (λ t t'. rw here refl)
  | inr there ↦ elim (latest-cases o rs) [
    | inl fixed ↦ inl (λ t t'. fixed _ _)
    | inr same ↦ inr (λ t. rw there (same t))
  ]
]

latest-again :
    (o : ℕ) (rs : List EventRow) (t : Option (ℕ × ℕ)) → latest o rs (latest o rs t) ≡ latest o rs t
latest-again o rs t = elim (latest-cases o rs) [ inl fixed ↦ fixed _ _ | inr same ↦ same _ ]

pub starts-saved :
    (rs : List EventRow) (c : EventCache)
    → All IsStart rs
    → (fold cache_event rs c).end_start_time ≡ c.end_start_time
unfolding cache_event
starts-saved [] c starts = refl
starts-saved (r ∷ rs) c starts =
    starts-saved rs (cache_event r c) starts.1
    ∙ ap
        (λ b.
          (if b
            then on_end r (select_by r.object_id c.last_start_time) c
            else on_start r c).end_start_time)
        starts.0

starts-remembered :
    (o : ℕ) (rs : List EventRow) (c : EventCache)
    → All IsStart rs
    → select_by o (fold cache_event rs c).last_start_time
      ≡ latest o rs (select_by o c.last_start_time)
unfolding cache_event
starts-remembered o [] c starts = refl
starts-remembered o (r ∷ rs) c starts =
    starts-remembered o rs (cache_event r c) starts.1
    ∙ ap
        (λ b. latest o rs (
          select_by o
            (if b
              then on_end r (select_by r.object_id c.last_start_time) c
              else on_start r c).last_start_time))
        starts.0
    ∙ ap (latest o rs) (on_start-select r c o)

-- Starts that are handled again change nothing.
starts-again :
    (rs : List EventRow) (c : EventCache)
    → All IsStart rs
    → Alike (fold cache_event rs (fold cache_event rs c)) (fold cache_event rs c)
starts-again rs c starts = record {
  saved = starts-saved rs (fold cache_event rs c) starts;
  remembered = λ o.
      starts-remembered o rs (fold cache_event rs c) starts
      ∙ ap (latest o rs) (starts-remembered o rs c starts)
      ∙ latest-again o rs (select_by o c.last_start_time)
      ∙ sym (starts-remembered o rs c starts);
}

pub fold-starts_again :
    (zs ys : List EventRow) (c : EventCache)
    → All IsStart zs
    → (fold cache_event (zs ++ ys) (fold cache_event zs c)).end_start_time
      ≡ (fold cache_event ys (fold cache_event zs c)).end_start_time
fold-starts_again zs ys c starts =
    ap (λ (d : EventCache). d.end_start_time)
      (sym (fold-append cache_event zs ys (fold cache_event zs c)))
    ∙ fold-Alike ys (fold cache_event zs (fold cache_event zs c)) (fold cache_event zs c)
        (starts-again zs c starts)
