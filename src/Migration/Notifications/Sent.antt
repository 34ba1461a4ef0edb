-- ===== src/Migration/Notifications/Sent.antt =====
-- What the entries of the notifications' stages refer to.
use icingadb.Prelude.{
  ℕ, String, List, [], ◌∷◌, map, All, All-append, All-map, Option, none, some, ◌≡◌, refl, inl,
  length, length-append, arith,
}
use icingadb.Migration.{Hash, Time, Has, convert_time, text, digits, unix_milli, meta_of}
use icingadb.Migration.Tables.{Has-append, Has-appended, All-appended}
use icingadb.Migration.States.{cached_by_id}
use icingadb.Migration.Notifications.{
  NotificationRow, NotificationHistory, HistoryNotification, UserNotification, NotificationStages,
  Queries, convert_notification_type, contacts_of, user_of, notification_id, notification_of,
  add_notification, on_kind, convert_notifications, no_notifications, last_notification,
  convert_notification_rows,
}

abbrev pub history_id : NotificationHistory → String
history_id n = n.id

-- Every user's entry and every entry of the history refers to an entry of the first stage, and there is
-- one of the latter for each of the first stage.
pub record IsSent (out : NotificationStages) : Type 0 where
  pub users :
      All
        (λ u. Has history_id u.notification_history_id out.notification_history)
        out.user_notification_history
  pub history :
      All (λ h. Has history_id h.notification_history_id out.notification_history) out.all_history
  pub each : length out.all_history ≡ length out.notification_history

users_refer :
    (hash : Hash) (checksum : String → String) (env id : String) (ns : List NotificationHistory)
    (contacts : List String)
    → Has history_id id ns
    → All
        (λ u. Has history_id u.notification_history_id ns)
        (map (user_of hash checksum env id) contacts)
users_refer hash checksum env id ns [] there = tt
users_refer hash checksum env id ns (c ∷ cs) there =
    (there, users_refer hash checksum env id ns cs there)

add_notification-IsSent :
    (hash : Hash) (checksum : String → String) (env : String) (contacts : List String)
    (r : NotificationRow) (kind : String) (previous : ℕ) (ts : Time) (out : NotificationStages)
    → IsSent out
    → IsSent (add_notification hash checksum env contacts r kind previous ts out)
add_notification-IsSent hash checksum env contacts r kind previous ts out w =
    let out' = add_notification hash checksum env contacts r kind previous ts out in
    let id = notification_id hash env r kind ts in
    let there : Has history_id id out'.notification_history =
      Has-appended history_id id out.notification_history _ (inl refl) in
    record {
      users =
          All-append
            (λ (u : UserNotification).
              Has history_id u.notification_history_id out'.notification_history)
            out.user_notification_history (map (user_of hash checksum env id) contacts)
            (All-map out.user_notification_history
              (λ u h. Has-append history_id u.notification_history_id out.notification_history _ h)
              w.users)
            (users_refer hash checksum env id out'.notification_history contacts there);
      history =
          All-appended
            (λ (h : HistoryNotification).
              Has history_id h.notification_history_id out'.notification_history)
            out.all_history _
            (All-map out.all_history
              (λ x h. Has-append history_id x.notification_history_id out.notification_history _ h)
              w.history)
            there;
      each = omega (
        arith,
        w.each,
        length-append out.notification_history (notification_of hash env r kind previous ts ∷ []),
        length-append out.all_history (
            record {
              id =
                  hash
                    (text env ∷ text "notification" ∷ digits r.id ∷ text kind ∷ unix_milli ts ∷ []);
              meta = meta_of hash env r.objecttype_id r.name1 r.name2;
              notification_history_id = id;
              event_time = ts;
            }
            ∷ []),
      );
    }

on_kind-IsSent :
    (hash : Hash) (checksum : String → String) (env : String) (contacts : List String)
    (r : NotificationRow) (time previous : Option ℕ) (kind : Option String)
    (out : NotificationStages)
    → IsSent out
    → IsSent (on_kind hash checksum env contacts r time previous kind out)
on_kind-IsSent hash checksum env contacts r none previous kind out w = w
on_kind-IsSent hash checksum env contacts r (some time) none kind out w = w
on_kind-IsSent hash checksum env contacts r (some time) (some previous) none out w = w
on_kind-IsSent hash checksum env contacts r (some time) (some previous) (some kind) out w =
    add_notification-IsSent hash checksum env contacts r kind previous
      (convert_time time r.end_time_usec) out w

convert_notifications-IsSent :
    (hash : Hash) (checksum : String → String) (env : String) (cached : ℕ → Option ℕ)
    (contacts : List (ℕ × String)) (rs : List NotificationRow) (out : NotificationStages)
    → IsSent out
    → IsSent (convert_notifications hash checksum env cached contacts rs out)
unfolding convert_notifications
convert_notifications-IsSent hash checksum env cached contacts [] out w = w
convert_notifications-IsSent hash checksum env cached contacts (r ∷ rs) out w =
    convert_notifications-IsSent hash checksum env cached contacts rs _ (
      on_kind-IsSent hash checksum env (contacts_of r.id contacts) r r.end_time (cached r.id)
        (convert_notification_type r.reason r.state) (record out { checkpoint = some r.id })
        (record { users = w.users; history = w.history; each = w.each }))

-- Whatever the rows, the cache and the contacts are: every entry of a notified user and every entry of the
-- history refers to a notification of the first stage, and the history has one for each of these.
pub convert_notification_rows-IsSent :
    (hash : Hash) (checksum : String → String) (env : String) (q : Queries)
    (rows : List NotificationRow)
    → IsSent (convert_notification_rows hash checksum env q rows)
unfolding convert_notification_rows
convert_notification_rows-IsSent hash checksum env q [] = record {
  users = tt;
  history = tt;
  each = refl;
}
convert_notification_rows-IsSent hash checksum env q (r ∷ rs) =
    convert_notifications-IsSent hash checksum env
      (cached_by_id (q.select_cache r.id (last_notification r rs)))
      (q.select_contacts r.id (last_notification r rs)) (r ∷ rs) no_notifications
      (record { users = tt; history = tt; each = refl })
