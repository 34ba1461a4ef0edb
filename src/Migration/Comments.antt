-- ===== src/Migration/Comments.antt =====
-- The comments and acknowledgements: `convertCommentRows` in cmd/icingadb-migrate/convert.go.
--
-- The environment's ID, which every entry is given, and the constant fields `EntryType` and `IsSticky`
-- of a comment are left out.
pub mod Integrity
mod Tests
use icingadb.Prelude.{
  ℕ, String, List, [], ◌∷◌, ◌++◌, Bool, true, false, not, Option, none, some, if◌then◌else◌, ◌==◌,
}
use icingadb.Migration.{
  Field, text, Hash, Time, convert_time, unix_milli, is_zero, calc_object_id, Meta, meta_of,
  full_name,
}

pub record CommentRow : Type 0 where
  pub id : ℕ
  pub entry_time : Option ℕ
  pub entry_time_usec : ℕ
  pub entry_type : ℕ
  pub author_name : String
  pub comment_data : String
  pub is_persistent : ℕ
  pub expiration_time : ℕ
  pub deletion_time : ℕ
  pub deletion_time_usec : ℕ
  pub name : String
  pub objecttype_id : ℕ
  pub name1 : String
  pub name2 : String

pub record CommentHistory : Type 0 where
  pub id : Option String
  pub meta : Meta
  pub remove_time : Time
  pub has_been_removed : Bool
  pub entry_time : Time
  pub author : String
  pub comment : String
  pub is_persistent : Bool
  pub expire_time : Time

-- `history.HistoryComment`: a time that is not set is zero.
pub record HistoryComment : Type 0 where
  pub id : String
  pub meta : Meta
  pub event_type : String
  pub comment_history_id : Option String
  pub entry_time : Time
  pub remove_time : Time
  pub expire_time : Time

pub record AcknowledgementHistory : Type 0 where
  pub id : String
  pub meta : Meta
  pub clear_time : Time
  pub set_time : Time
  pub author : String
  pub comment : String
  pub expire_time : Time
  pub is_persistent : Bool

pub record HistoryAck : Type 0 where
  pub id : String
  pub meta : Meta
  pub event_type : String
  pub acknowledgement_history_id : String
  pub set_time : Time
  pub clear_time : Time

-- The stages, in the order in which they are written, and the checkpoint.
pub record CommentStages : Type 0 where
  pub comment_history : List CommentHistory
  pub acknowledgement_history : List AcknowledgementHistory
  pub all_history_comment : List HistoryComment
  pub all_history_ack : List HistoryAck
  pub checkpoint : Option ℕ

abbrev is_set : ℕ → Bool
is_set n = not (n == 0)

abbrev pub removed : CommentRow → Time
removed r = convert_time r.deletion_time r.deletion_time_usec

abbrev pub comment_of : Hash → String → CommentRow → Time → CommentHistory
comment_of hash env r entered = record {
  id = calc_object_id hash env r.name;
  meta = meta_of hash env r.objecttype_id r.name1 r.name2;
  remove_time = removed r;
  has_been_removed = not (is_zero (removed r));
  entry_time = entered;
  author = r.author_name;
  comment = r.comment_data;
  is_persistent = is_set r.is_persistent;
  expire_time = convert_time r.expiration_time 0;
}

abbrev pub comment_add : Hash → String → CommentRow → Time → HistoryComment
comment_add hash env r entered = record {
  id = hash (text env ∷ text "comment_add" ∷ text r.name ∷ []);
  meta = meta_of hash env r.objecttype_id r.name1 r.name2;
  event_type = "comment_add";
  comment_history_id = calc_object_id hash env r.name;
  entry_time = entered;
  remove_time = none;
  expire_time = none;
}

abbrev pub comment_remove : Hash → String → CommentRow → Time → HistoryComment
comment_remove hash env r entered = record {
  id = hash (text env ∷ text "comment_remove" ∷ text r.name ∷ []);
  meta = meta_of hash env r.objecttype_id r.name1 r.name2;
  event_type = "comment_remove";
  comment_history_id = calc_object_id hash env r.name;
  entry_time = entered;
  remove_time = removed r;
  expire_time = convert_time r.expiration_time 0;
}

-- The case of a user's comment.
abbrev pub add_comment : Hash → String → CommentRow → Time → CommentStages → CommentStages
add_comment hash env r entered out = record out {
  comment_history = out.comment_history ++ comment_of hash env r entered ∷ [];
  all_history_comment =
      out.all_history_comment
      ++ (if is_zero (removed r)
          then comment_add hash env r entered ∷ []
          else comment_add hash env r entered ∷ comment_remove hash env r entered ∷ []);
}

abbrev pub ack_id : Hash → String → CommentRow → Time → String
ack_id hash env r entered =
    hash (text env ∷ text (full_name r.name1 r.name2) ∷ unix_milli entered ∷ [])

abbrev pub ack_of : Hash → String → CommentRow → Time → AcknowledgementHistory
ack_of hash env r entered = record {
  id = ack_id hash env r entered;
  meta = meta_of hash env r.objecttype_id r.name1 r.name2;
  clear_time = removed r;
  set_time = entered;
  author = r.author_name;
  comment = r.comment_data;
  expire_time = convert_time r.expiration_time 0;
  is_persistent = is_set r.is_persistent;
}

abbrev pub ack_event : Hash → String → String → CommentRow → Time → HistoryAck
ack_event hash env kind r entered = record {
  id = hash (text env ∷ text kind ∷ text (full_name r.name1 r.name2) ∷ unix_milli entered ∷ []);
  meta = meta_of hash env r.objecttype_id r.name1 r.name2;
  event_type = kind;
  acknowledgement_history_id = ack_id hash env r entered;
  set_time = entered;
  clear_time = removed r;
}

-- The case of an acknowledgement.
abbrev pub add_ack : Hash → String → CommentRow → Time → CommentStages → CommentStages
add_ack hash env r entered out = record out {
  acknowledgement_history = out.acknowledgement_history ++ ack_of hash env r entered ∷ [];
  all_history_ack =
      out.all_history_ack
      ++ (if is_zero (removed r)
          then ack_event hash env "ack_set" r entered ∷ []
          else ack_event hash env "ack_set" r entered
            ∷ ack_event hash env "ack_clear" r entered
            ∷ []);
}

abbrev pub by_type : Hash → String → CommentRow → Time → CommentStages → CommentStages
by_type hash env r entered out =
    if r.entry_type == 1
    then add_comment hash env r entered out
    else if r.entry_type == 4
    then add_ack hash env r entered out
    else out

abbrev pub on_entry : Hash → String → CommentRow → Option ℕ → CommentStages → CommentStages
on_entry hash env r none out = out
on_entry hash env r (some time) out = by_type hash env r (convert_time time r.entry_time_usec) out

unfoldable pub convert_comments : Hash → String → List CommentRow → CommentStages → CommentStages
convert_comments hash env [] out = out
convert_comments hash env (r ∷ rs) out =
    convert_comments hash env rs
      (on_entry hash env r r.entry_time (record out { checkpoint = some r.id }))

unfoldable pub convert_comment_rows : Hash → String → List CommentRow → CommentStages
unfolding convert_comments
convert_comment_rows hash env rows = convert_comments hash env rows (record {
  comment_history = [];
  acknowledgement_history = [];
  all_history_comment = [];
  all_history_ack = [];
  checkpoint = none;
})
