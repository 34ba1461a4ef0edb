-- ===== src/Migration/Comments/Tests.antt =====
-- A comment that was removed, and an acknowledgement that stands.
use icingadb.Prelude.{ℕ, String, [], ◌∷◌, some, ◌≡◌, refl, map}
use icingadb.Migration.Samples.{hash}
use icingadb.Migration.Comments.{CommentRow, HistoryComment, convert_comment_rows, convert_comments}
use icingadb.Migration.Comments.Integrity.{IsWhole, convert_comment_rows-IsWhole}

abbrev row : ℕ → ℕ → ℕ → CommentRow
row id typ deleted = record {
  id = id;
  entry_time = some 5;
  entry_time_usec = 0;
  entry_type = typ;
  author_name = "x";
  comment_data = "y";
  is_persistent = 0;
  expiration_time = 0;
  deletion_time = deleted;
  deletion_time_usec = 0;
  name = "c";
  objecttype_id = 1;
  name1 = "a";
  name2 = "";
}

convert_comment_rows-IsWhole_example :
    IsWhole (convert_comment_rows hash "e" (row 1 1 9 ∷ row 2 4 0 ∷ []))
convert_comment_rows-IsWhole_example =
    convert_comment_rows-IsWhole hash "e" (row 1 1 9 ∷ row 2 4 0 ∷ [])

abbrev event : HistoryComment → String
event h = h.event_type

events :
    map event (convert_comment_rows hash "e" (row 1 1 9 ∷ row 2 4 0 ∷ [])).all_history_comment
    ≡ "comment_add" ∷ "comment_remove" ∷ []
unfolding convert_comment_rows convert_comments
events = refl
