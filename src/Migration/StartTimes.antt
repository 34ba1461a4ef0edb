-- ===== src/Migration/StartTimes.antt =====
-- The cache of start times: `buildEventTimeCache` in cmd/icingadb-migrate/cache.go.
--
-- The rows of the IDO are those of the query without its checkpoint and limit, from the smallest ID on. As
-- for the other cache, an interrupted run leaves what it had after some of the rows, or after all.
pub mod Saved
pub mod Alike
pub mod Resumed
pub mod Future
mod Tests
use icingadb.Prelude.{
  ℕ, List, [], ◌∷◌, Bool, true, false, Option, none, some, if◌then◌else◌, ◌==◌, ltb,
}
use icingadb.Migration.CacheTables.{select_by, delete_by}
use icingadb.Migration.Slices.{rows_beyond, slice_ido_history}

pub record EventRow : Type 0 where
  pub id : ℕ
  pub event_time : ℕ
  pub event_time_usec : ℕ
  pub event_is_start : ℕ
  pub object_id : ℕ

-- The tables: the start times by the history ID of the end, and by object for the end to come.
pub record EventCache : Type 0 where
  pub end_start_time : List (ℕ × (ℕ × ℕ))
  pub last_start_time : List (ℕ × (ℕ × ℕ))

abbrev pub no_events : EventCache
no_events = record { end_start_time = []; last_start_time = [] }

abbrev pub on_end : EventRow → Option (ℕ × ℕ) → EventCache → EventCache
on_end r none c = c
on_end r (some t) c = record {
  end_start_time = (r.id, t) ∷ c.end_start_time;
  last_start_time = delete_by r.object_id c.last_start_time;
}

abbrev pub on_start : EventRow → EventCache → EventCache
on_start r c = record c {
  last_start_time =
      (r.object_id, (r.event_time, r.event_time_usec)) ∷ delete_by r.object_id c.last_start_time;
}

unfoldable pub cache_event : EventRow → EventCache → EventCache
cache_event r c =
    if r.event_is_start == 0
    then on_end r (select_by r.object_id c.last_start_time) c
    else on_start r c

-- The callback for a slice, with the checkpoint so far.
unfoldable pub cache_events : Option ℕ → List EventRow → EventCache → EventCache × Option ℕ
unfolding cache_event
cache_events checkpoint [] c = (c, checkpoint)
cache_events checkpoint (r ∷ rs) c = cache_events (some r.id) rs (cache_event r c)

-- `MAX(history_id)`, or 0 where there is none.
abbrev pub max_id : List (ℕ × (ℕ × ℕ)) → ℕ
max_id [] = 0
max_id ((h, t) ∷ m) = let k = max_id m in if ltb h k then k else h

abbrev pub above : ℕ → ℕ → Bool
above c i = ltb c i

-- What is never queried is deleted in the end.
abbrev pub finished : Option EventCache → Option EventCache
finished none = none
finished (some c) = some (record c { last_start_time = [] })

unfoldable pub build_event_time_cache : ℕ → ℕ → List EventRow → EventCache → Option EventCache
unfolding cache_events slice_ido_history
build_event_time_cache bulk fuel rows c = finished (
    slice_ido_history (cache_events none) (rows_beyond (λ (r : EventRow). r.id) above rows) bulk
      fuel (max_id c.end_start_time) c)
