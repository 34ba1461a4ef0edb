-- ===== src/Ha.antt =====
-- High availability: pkg/icingadb/ha.go.
--
-- `icingadb_instance` is a list of rows in the order in which the database returns them. Times are
-- in milliseconds and `now` is an argument of each operation. What the database, the clock and the
-- receiver of the signals do is an argument too. Logging, the columns that are only copied from the
-- heartbeat and the socket path are left out.
pub mod Controller
pub mod Rows
pub mod Signals
pub mod Takeover
pub mod Reachable
pub mod Realizing
pub mod Rounds
pub mod Published
pub mod Cluster
pub mod Dispute
mod Tests
use icingadb.Prelude.{
  ℕ, ◌+◌, ◌*◌, List, [], ◌∷◌, Bool, true, false, not, ◌&&◌, ◌||◌, Option, none, some, if◌then◌else◌,
  ltb, ◌==◌,
}

-- A row of `icingadb_instance` (`v1.IcingadbInstance`).
pub record Instance : Type 0 where
  pub id : ℕ
  pub environment_id : ℕ
  pub endpoint_id : ℕ
  pub heartbeat : ℕ
  pub responsible : Bool
  pub notifications_healthy : Option Bool

abbrev pub Database : Type 0
Database = List Instance

-- `icingaredis.Timeout` and `peerTimeout`.
abbrev pub heartbeat_timeout : ℕ
heartbeat_timeout = 60000

abbrev pub peer_timeout : ℕ
peer_timeout = heartbeat_timeout + 5000

pub record HaState : Type 0 where
  pub responsible_ts_milli : ℕ
  pub responsible : Bool
  pub other_responsible : Bool

-- A zero `time.Time` and an invalid `types.Bool` are `none`.
pub record NotificationsState : Type 0 where
  pub unhealthy_since : Option ℕ
  pub healthy : Option Bool
  pub last_problem_logged_at : Option ℕ

pub data Reason : Type 0 where
  from_the_past lost_heartbeat deadline_exceeded other_responsible unhealthy : Reason
  other_expired none_active : Reason

-- What was sent on the channels `handover` and `takeover`.
pub data Signal : Type 0 where
  handover : Reason → Signal
  takeover : Reason → Signal

-- `HA`. An environment whose ID is nil is `some none`. `cancelled` is that `cancelCtx` was called; `aborted` is that `err` is set.
-- `signals` are those that were sent, the latest first, with their times.
pub record Node : Type 0 where
  pub instance_id : ℕ
  pub environment : Option (Option ℕ)
  pub responsible : Bool
  pub state : HaState
  pub notifications : NotificationsState
  pub aborted : Bool
  pub cancelled : Bool
  pub signals : List (ℕ × Signal)

abbrev pub fresh_notifications : NotificationsState
fresh_notifications = record {
  unhealthy_since = none;
  healthy = none;
  last_problem_logged_at = none;
}

-- `NewHA`
unfoldable pub new_ha : ℕ → Node
new_ha id = record {
  instance_id = id;
  environment = none;
  responsible = false;
  state = record { responsible_ts_milli = 0; responsible = false; other_responsible = false };
  notifications = fresh_notifications;
  aborted = false;
  cancelled = false;
  signals = [];
}

unfoldable pub abort : Node → Node
abort h = record h { aborted = true; cancelled = true }

abbrev store_state : ℕ → Bool → Node → Node
store_state now is_responsible h = record h {
  state = record {
    responsible_ts_milli = now;
    responsible = is_responsible;
    other_responsible = false;
  };
}

-- The send succeeds if `delivered`; otherwise the context is done.
abbrev send : ℕ → Bool → Bool → Signal → Node → Node
send now true is_responsible s h = record h {
  responsible = is_responsible;
  signals = (now, s) ∷ h.signals;
}
send now false is_responsible s h = h

unfoldable pub signal_handover : ℕ → Bool → Reason → Node → Node
signal_handover now delivered reason h =
    if h.responsible
    then send now delivered false (handover reason) (store_state now false h)
    else h

unfoldable pub signal_takeover : ℕ → Bool → Reason → Node → Node
signal_takeover now delivered reason h =
    if h.responsible then h else send now delivered true (takeover reason) (store_state now true h)

-- "SELECT id, heartbeat ... WHERE environment_id = ? AND responsible = 'y' AND id <> ?"
abbrev pub is_other_active : ℕ → ℕ → Instance → Bool
is_other_active env self r = r.environment_id == env && (r.responsible && not (r.id == self))

unfoldable pub find_other : ℕ → ℕ → Database → Option Instance
find_other env self [] = none
find_other env self (r ∷ rows) =
    if is_other_active env self r then some r else find_other env self rows

-- The `switch` on the result of the query: why to take over, if at all, and `otherResponsible`.
unfoldable pub decide : Node → ℕ → Option Instance → Option Reason × Bool
decide h now (some r) =
    if ltb (r.heartbeat + peer_timeout) now then (some other_expired, false) else (none, true)
decide h now none = if h.responsible then (none, false) else (some none_active, false)

-- The upsert of a row, by its id.
unfoldable pub upsert : Instance → Database → Database
upsert i [] = i ∷ []
upsert i (r ∷ rows) = if r.id == i.id then i ∷ rows else r ∷ upsert i rows

-- "UPDATE icingadb_instance SET responsible = 'n' WHERE environment_id = ? AND id <> ?"
abbrev pub retract_row : ℕ → ℕ → Instance → Instance
retract_row env self r =
    if r.environment_id == env && not (r.id == self) then record r { responsible = false } else r

unfoldable pub retract_others : ℕ → ℕ → Database → Database
retract_others env self [] = []
retract_others env self (r ∷ rows) = retract_row env self r ∷ retract_others env self rows

abbrev pub is_taking_over : Option Reason → Bool
is_taking_over none = false
is_taking_over (some r) = true

-- The row that the transaction writes for this instance.
unfoldable pub own_row : Node → ℕ → ℕ → ℕ → Option Reason → Instance
own_row h env endpoint last_message why = record {
  id = h.instance_id;
  environment_id = env;
  endpoint_id = endpoint;
  heartbeat = last_message;
  responsible = is_taking_over why || h.responsible;
  notifications_healthy = h.notifications.healthy;
}

-- What a committed transaction leaves in the table.
write_rows : Node → ℕ → ℕ → ℕ → Option Reason → Database → Database
unfolding own_row
write_rows h env endpoint last_message none db =
    upsert (own_row h env endpoint last_message none) db
write_rows h env endpoint last_message (some why) db =
    retract_others env h.instance_id (upsert (own_row h env endpoint last_message (some why)) db)

unfoldable pub transaction : Node → ℕ → ℕ → ℕ → ℕ → Database → Database
unfolding write_rows
transaction h env endpoint now last_message db =
    write_rows h env endpoint last_message (decide h now (find_other env h.instance_id db)).0 db

-- `realize` after the transaction: the signals and the stored state.
abbrev pub note_other_state : Node → Node
note_other_state h =
    if h.state.other_responsible
    then h
    else record h { state = record (h.state) { other_responsible = true } }

unfoldable pub note_other : ℕ → Bool → Node → Node
note_other now delivered h =
    note_other_state
      (if h.state.responsible then signal_handover now delivered other_responsible h else h)

unfoldable pub conclude : ℕ → Bool → Option Reason × Bool → Node → Node
unfolding note_other
conclude now delivered (some why, other) h = signal_takeover now delivered why h
conclude now delivered (none, true) h = note_other now delivered h
conclude now delivered (none, false) h = h

-- "UPDATE icingadb_instance SET responsible = 'n', notifications_healthy = ? WHERE id = ?": it has
-- no effect where the update fails.
abbrev pub retract_own : Node → Instance → Instance
retract_own h r =
    if r.id == h.instance_id
    then record r { responsible = false; notifications_healthy = h.notifications.healthy }
    else r

unfoldable pub realize_lost_heartbeat : Bool → Node → Database → Database
realize_lost_heartbeat true h [] = []
realize_lost_heartbeat true h (r ∷ rows) = retract_own h r ∷ realize_lost_heartbeat true h rows
realize_lost_heartbeat false h rows = rows

-- "DELETE FROM icingadb_instance WHERE id = ?" of `removeInstance`.
unfoldable pub remove_instance : Node → Database → Database
remove_instance h [] = []
remove_instance h (r ∷ rows) =
    let rest = remove_instance h rows in if r.id == h.instance_id then rest else r ∷ rest

-- "DELETE ... WHERE id <> ? AND environment_id = ? AND endpoint_id = ? AND heartbeat < ?" of
-- `removeOldInstances`; the heartbeat's limit is `now - peerTimeout`.
unfoldable pub remove_old_instances : Node → ℕ → ℕ → ℕ → Database → Database
remove_old_instances h env endpoint now [] = []
remove_old_instances h env endpoint now (r ∷ rows) =
    let rest = remove_old_instances h env endpoint now rows in
    if not (r.id == h.instance_id)
      && (r.environment_id == env
          && (r.endpoint_id == endpoint && ltb (r.heartbeat + peer_timeout) now))
    then rest
    else r ∷ rest

-- `instanceCount`, where the query succeeds.
unfoldable pub instance_count : ℕ → Database → ℕ
instance_count env [] = 0
instance_count env (r ∷ rows) = (if r.environment_id == env then 1 else 0) + instance_count env rows
