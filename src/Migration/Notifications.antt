-- ===== src/Migration/Notifications.antt =====
-- The notifications: `convertNotificationRows` and `convertNotificationType` in
-- cmd/icingadb-migrate/convert.go.
--
-- `select_cache` and `select_contacts` are the queries of the cache and of the IDO database, and
-- `checksum` is `utils.Checksum`. The contacts of a notification come in the order of a Go map: the one
-- here stands for any. The environment's ID, which every entry is given, and the columns that are only
-- copied from the row are left out.
pub mod Sent
mod Tests
use icingadb.Prelude.{
  ℕ, String, str_append, str_eq, List, [], ◌∷◌, ◌++◌, map, Bool, true, false, ◌||◌, Option, none,
  some, if◌then◌else◌, ◌==◌,
}
use icingadb.Migration.{
  Field, text, digits, Hash, Time, convert_time, unix_milli, calc_object_id, Meta, meta_of,
}
use icingadb.Migration.States.{cached_by_id}

pub record NotificationRow : Type 0 where
  pub id : ℕ
  pub reason : ℕ
  pub end_time : Option ℕ
  pub end_time_usec : ℕ
  pub state : ℕ
  pub output : String
  pub long_output : Option String
  pub objecttype_id : ℕ
  pub name1 : String
  pub name2 : String

pub record NotificationHistory : Type 0 where
  pub id : String
  pub meta : Meta
  pub notification_id : String
  pub kind : String
  pub send_time : Time
  pub previous_hard_state : ℕ
  pub message : String

pub record HistoryNotification : Type 0 where
  pub id : String
  pub meta : Meta
  pub notification_history_id : String
  pub event_time : Time

pub record UserNotification : Type 0 where
  pub id : String
  pub notification_history_id : String
  pub user_id : Option String

-- The stages, in the order in which they are written, and the checkpoint.
pub record NotificationStages : Type 0 where
  pub notification_history : List NotificationHistory
  pub user_notification_history : List UserNotification
  pub all_history : List HistoryNotification
  pub checkpoint : Option ℕ

-- What the conversion asks for.
pub record Queries : Type 0 where
  pub select_cache : ℕ → ℕ → List (ℕ × ℕ)
  pub select_contacts : ℕ → ℕ → List (ℕ × String)

-- `convertNotificationType`: an error is `none`.
abbrev pub convert_notification_type : ℕ → ℕ → Option String
convert_notification_type reason state =
    if reason == 0
    then if state == 0 then some "recovery" else some "problem"
    else if reason == 1
    then some "acknowledgement"
    else if reason == 2
    then some "flapping_start"
    else if reason == 3
    then some "flapping_end"
    else if reason == 5
    then some "downtime_start"
    else if reason == 6
    then some "downtime_end"
    else if reason == 7
    then some "downtime_removed"
    else if reason == 8
    then some "custom"
    else none

abbrev is_name : String → List String → Bool
is_name n [] = false
is_name n (n' ∷ ns) = str_eq n' n || is_name n ns

-- The names of a notification's contacts, each once.
abbrev pub contacts_of : ℕ → List (ℕ × String) → List String
contacts_of id [] = []
contacts_of id ((id', n) ∷ cs) =
    let rest = contacts_of id cs in
    if id' == id then (if is_name n rest then rest else n ∷ rest) else rest

abbrev or_empty : Option String → String
or_empty none = ""
or_empty (some i) = i

abbrev pub user_of : Hash → (String → String) → String → String → String → UserNotification
user_of hash checksum env history_id contact = record {
  id = checksum (str_append history_id (or_empty (calc_object_id hash env contact)));
  notification_history_id = history_id;
  user_id = calc_object_id hash env contact;
}

abbrev pub message_of : NotificationRow → Option String → String
message_of r none = r.output
message_of r (some long) = str_append r.output (str_append "\n\n" long)

abbrev pub notification_id : Hash → String → NotificationRow → String → Time → String
notification_id hash env r kind ts = hash (text env ∷ digits r.id ∷ text kind ∷ unix_milli ts ∷ [])

abbrev pub notification_of :
    Hash → String → NotificationRow → String → ℕ → Time → NotificationHistory
notification_of hash env r kind previous ts = record {
  id = notification_id hash env r kind ts;
  meta = meta_of hash env r.objecttype_id r.name1 r.name2;
  notification_id = hash (text env ∷ digits r.id ∷ []);
  kind = kind;
  send_time = ts;
  previous_hard_state = previous;
  message = message_of r r.long_output;
}

abbrev pub add_notification :
    Hash
    → (String → String)
    → String
    → List String
    → NotificationRow
    → String
    → ℕ
    → Time
    → NotificationStages
    → NotificationStages
add_notification hash checksum env contacts r kind previous ts out =
    let id = notification_id hash env r kind ts in
    record out {
      notification_history =
          out.notification_history ++ notification_of hash env r kind previous ts ∷ [];
      user_notification_history =
          out.user_notification_history ++ map (user_of hash checksum env id) contacts;
      all_history =
          out.all_history
          ++ record {
            id =
                hash
                  (text env ∷ text "notification" ∷ digits r.id ∷ text kind ∷ unix_milli ts ∷ []);
            meta = meta_of hash env r.objecttype_id r.name1 r.name2;
            notification_history_id = id;
            event_time = ts;
          }
            ∷ [];
    }

abbrev pub on_kind :
    Hash
    → (String → String)
    → String
    → List String
    → NotificationRow
    → Option ℕ
    → Option ℕ
    → Option String
    → NotificationStages
    → NotificationStages
on_kind hash checksum env contacts r none previous kind out = out
on_kind hash checksum env contacts r (some time) none kind out = out
on_kind hash checksum env contacts r (some time) (some previous) none out = out
on_kind hash checksum env contacts r (some time) (some previous) (some kind) out =
    add_notification hash checksum env contacts r kind previous (convert_time time r.end_time_usec)
      out

unfoldable pub convert_notifications :
    Hash
    → (String → String)
    → String
    → (ℕ → Option ℕ)
    → List (ℕ × String)
    → List NotificationRow
    → NotificationStages
    → NotificationStages
convert_notifications hash checksum env cached contacts [] out = out
convert_notifications hash checksum env cached contacts (r ∷ rs) out =
    convert_notifications hash checksum env cached contacts rs (
      on_kind hash checksum env (contacts_of r.id contacts) r r.end_time (cached r.id)
        (convert_notification_type r.reason r.state) (record out { checkpoint = some r.id }))

abbrev pub no_notifications : NotificationStages
no_notifications = record {
  notification_history = [];
  user_notification_history = [];
  all_history = [];
  checkpoint = none;
}

abbrev pub last_notification : NotificationRow → List NotificationRow → ℕ
last_notification r [] = r.id
last_notification r (r' ∷ rs) = last_notification r' rs

unfoldable pub convert_notification_rows :
    Hash → (String → String) → String → Queries → List NotificationRow → NotificationStages
unfolding convert_notifications
convert_notification_rows hash checksum env q [] = no_notifications
convert_notification_rows hash checksum env q (r ∷ rs) =
    let last = last_notification r rs in
    convert_notifications hash checksum env (cached_by_id (q.select_cache r.id last))
      (q.select_contacts r.id last) (r ∷ rs) no_notifications
