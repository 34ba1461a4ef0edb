-- ===== src/Ha/Controller.antt =====
-- The controller loop of high availability: pkg/icingadb/ha.go, `controller` and
-- `verifyNotificationsState`.
use icingadb.Prelude.{
  ℕ, ◌+◌, Bool, true, false, not, ◌&&◌, Option, none, some, if◌then◌else◌, ltb, ◌==◌,
}
use icingadb.Ha.{
  Database, peer_timeout, NotificationsState, from_the_past, lost_heartbeat, deadline_exceeded,
  unhealthy, Node, fresh_notifications, abort, signal_handover, find_other, decide, transaction,
  conclude, realize_lost_heartbeat, instance_count,
}

-- A `HeartbeatMessage`: a part that cannot be read from it is `none`.
pub record Message : Type 0 where
  pub time : Option ℕ
  pub endpoint_id : Option ℕ
  pub environment_id : Option ℕ

-- How `realize` ends, its retries included: an attempt that is rolled back leaves no trace.
pub data TxResult : Type 0 where
  -- The transaction is committed, and the deadline has not passed when the controller looks.
  committed : TxResult
  -- The same, but the deadline has passed by then.
  committed_late : TxResult
  -- The deadline passed before a commit.
  deadline : TxResult
  -- The deadline passed while the commit was under way, which succeeds in the background.
  deadline_committed : TxResult
  -- Another error.
  failed : TxResult

-- What the outside does in one round of the loop. `now` is the time at its start, `tx_now` the time
-- of the transaction, `last_message` is `heartbeat.LastMessageTime()`.
pub record Outside : Type 0 where
  pub now : ℕ
  pub tx_now : ℕ
  pub last_message : ℕ
  pub tx : TxResult
  pub delivered : Bool
  pub update_ok : Bool
  pub count_ok : Bool

-- What the `select` receives; `lost` is a nil message.
pub data Event : Type 0 where
  beat : Message → Event
  lost : Event
  notifications_heartbeat : Bool → Event
  -- `heartbeat.Done()`, and whether there is an error.
  heartbeat_done : Bool → Event
  ctx_done : Event

-- `fatal` is `logger.Fatalw`, which ends the process; `panicked` a nil pointer.
pub data Outcome : Type 0 where
  goes : Node → Database → Outcome
  returned : Node → Database → Outcome
  fatal : Outcome
  panicked : Outcome

-- `IsValidUnhealthy`
unfoldable pub is_valid_unhealthy : NotificationsState → Bool
is_valid_unhealthy ns = elim (ns.healthy) [ none ↦ false | some ok ↦ not ok ]

-- `now.After(t.Add(timeout))`; a zero time is long ago.
abbrev pub is_past : ℕ → ℕ → Option ℕ → Bool
is_past timeout now none = true
is_past timeout now (some t) = ltb (t + timeout) now

pub data Verified : Type 0 where
  handed_over : Node → Verified
  kept : Node → Verified
  no_environment : Verified

abbrev pub counted : Outside → Option ℕ → Database → ℕ
counted o none db = 0
counted o (some env) db = if o.count_ok then instance_count env db else 0

-- `verifyNotificationsState`; `timeout` is `retry.DefaultTimeout`. The update of the table is made
-- by the caller.
unfoldable pub hand_over_unless_alone : Option (Option ℕ) → Outside → Node → Database → Verified
hand_over_unless_alone none o h db = no_environment
hand_over_unless_alone (some env) o h db =
    if ltb 1 (counted o env db)
    then handed_over (signal_handover o.now o.delivered unhealthy h)
    else kept (record h {
      notifications = record (h.notifications) { last_problem_logged_at = some o.now };
    })

unfoldable pub verify_notifications_state : ℕ → Outside → Node → Database → Verified
unfolding is_valid_unhealthy
verify_notifications_state timeout o h db =
    if is_valid_unhealthy h.notifications && is_past timeout o.now h.notifications.unhealthy_since
    then hand_over_unless_alone h.environment o h db
    else kept
        (record h { notifications = record (h.notifications) { last_problem_logged_at = none } })

-- `bytes.Equal`
abbrev pub same_id : Option ℕ → Option ℕ → Bool
same_id none none = true
same_id (some a) (some b) = a == b
same_id _ _ = false

-- `h.environment == nil || !bytes.Equal(h.environment.Id, envId)`: `none` is the fatal error.
unfoldable pub same_environment : Option (Option ℕ) → Option ℕ → Node → Option Node
same_environment none env h = some (record h { environment = some env })
same_environment (some current) env h = if same_id current env then some h else none

unfoldable pub set_environment : Option ℕ → Node → Option Node
unfolding same_environment
set_environment env h = same_environment h.environment env h

-- `realize`, and what the controller makes of its result. A transaction cannot begin on a context
-- that is done.
abbrev pub committed_node : Outside → ℕ → Node → Database → Node
committed_node o env h db =
    conclude o.tx_now o.delivered (decide h o.tx_now (find_other env h.instance_id db)) h

abbrev pub committed_rows : Outside → ℕ → ℕ → Node → Database → Database
committed_rows o env endpoint h db = transaction h env endpoint o.tx_now o.last_message db

unfoldable pub realize : TxResult → Outside → ℕ → ℕ → Node → Database → Outcome
realize committed o env endpoint h db =
    goes (committed_node o env h db) (committed_rows o env endpoint h db)
realize committed_late o env endpoint h db =
    goes (signal_handover o.tx_now o.delivered deadline_exceeded (committed_node o env h db))
      (committed_rows o env endpoint h db)
realize deadline o env endpoint h db =
    goes (signal_handover o.tx_now o.delivered deadline_exceeded h) db
realize deadline_committed o env endpoint h db =
    goes (signal_handover o.tx_now o.delivered deadline_exceeded h)
      (committed_rows o env endpoint h db)
realize failed o env endpoint h db = goes (abort h) db

unfoldable pub realize_ids : Outside → Option ℕ → Option ℕ → Node → Database → Outcome
realize_ids o none endpoint h db = goes (abort h) db
realize_ids o (some env) none h db = goes (abort h) db
realize_ids o (some env) (some endpoint) h db =
    realize (if h.cancelled then failed else o.tx) o env endpoint h db

-- An endpoint or an environment ID that cannot be read aborts.
unfoldable pub on_environment : Outside → Message → Option Node → Database → Outcome
unfolding realize_ids
on_environment o m none db = fatal
on_environment o m (some h) db = realize_ids o m.environment_id m.endpoint_id h db

unfoldable pub on_verified : Outside → Message → Verified → Database → Outcome
unfolding on_environment
on_verified o m no_environment db = panicked
on_verified o m (handed_over h) db =
    goes (record h { notifications = fresh_notifications })
      (realize_lost_heartbeat o.update_ok h db)
on_verified o m (kept h) db = on_environment o m (set_environment m.environment_id h) db

-- A heartbeat with a timestamp.
unfoldable pub on_beat_at : ℕ → Outside → ℕ → Message → Node → Database → Outcome
unfolding on_verified
on_beat_at timeout o t m h db =
    if ltb (t + peer_timeout) o.now
    then goes (signal_handover o.now o.delivered from_the_past h)
        (realize_lost_heartbeat o.update_ok (signal_handover o.now o.delivered from_the_past h) db)
    else on_verified o m (verify_notifications_state timeout o h db) db

-- `t.Time()` is called on a nil `t` where the timestamp cannot be read.
unfoldable pub on_beat : ℕ → Outside → Option ℕ → Message → Node → Database → Outcome
unfolding on_beat_at
on_beat timeout o none m h db = panicked
on_beat timeout o (some t) m h db = on_beat_at timeout o t m h db

unfoldable pub on_lost : Outside → Node → Database → Outcome
on_lost o h db =
    goes (signal_handover o.now o.delivered lost_heartbeat h)
      (realize_lost_heartbeat o.update_ok (signal_handover o.now o.delivered lost_heartbeat h) db)

unfoldable pub on_notifications : ℕ → Bool → NotificationsState → NotificationsState
on_notifications now true ns = record ns { healthy = some true; unhealthy_since = none }
on_notifications now false ns = record ns {
  healthy = some false;
  unhealthy_since = elim (ns.unhealthy_since) [ none ↦ some now | some t ↦ some t ];
}

-- One round of the loop.
unfoldable pub step : ℕ → Outside → Event → Node → Database → Outcome
step timeout o (beat m) h db = on_beat timeout o m.time m h db
step timeout o lost h db = on_lost o h db
step timeout o (notifications_heartbeat ok) h db =
    goes (record h { notifications = on_notifications o.now ok h.notifications }) db
step timeout o (heartbeat_done true) h db = goes (abort h) db
step timeout o (heartbeat_done false) h db = goes h db
step timeout o ctx_done h db = returned h db
