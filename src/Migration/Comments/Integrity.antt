-- ===== src/Migration/Comments/Integrity.antt =====
-- What the entries of the history refer to, and which removals they tell.
use icingadb.Prelude.{
  ℕ, ◌+◌, String, List, [], ◌∷◌, ◌++◌, All, All-append, All-map, Bool, true, false, not, Option,
  none, some, if◌then◌else◌, ◌==◌, ◌≡◌, ◌⊎◌, inl, inr, refl, arith, length, length-append,
}
use icingadb.Migration.{Hash, Time, Has, is_zero, convert_time}
use icingadb.Migration.Tables.{Has-append, Has-appended}
use icingadb.Migration.Comments.{
  CommentRow, CommentHistory, HistoryComment, AcknowledgementHistory, HistoryAck, CommentStages,
  removed, comment_of, comment_add, comment_remove, add_comment, ack_of, ack_event, add_ack,
  by_type, on_entry, convert_comments, convert_comment_rows,
}

abbrev pub acknowledgement_id : AcknowledgementHistory → String
acknowledgement_id a = a.id

-- A comment of the first stage has the ID.
abbrev pub HasComment : Option String → List CommentHistory → Type 0
HasComment i [] = ⊥
HasComment i (c ∷ cs) = (c.id ≡ i) ⊎ HasComment i cs

abbrev bit : Bool → ℕ
bit true = 1
bit false = 0

-- How many of the comments, and of the acknowledgements, have ended.
abbrev pub count_removed : List CommentHistory → ℕ
count_removed [] = 0
count_removed (c ∷ cs) = bit c.has_been_removed + count_removed cs

abbrev pub count_cleared : List AcknowledgementHistory → ℕ
count_cleared [] = 0
count_cleared (a ∷ rest) = bit (not (is_zero a.clear_time)) + count_cleared rest

-- Every entry of the history refers to one of an earlier stage, and the histories have one entry for each
-- of those and one more for each of those that have ended.
pub record IsWhole (out : CommentStages) : Type 0 where
  pub comments :
      All (λ h. HasComment h.comment_history_id out.comment_history) out.all_history_comment
  pub acks :
      All
        (λ h. Has acknowledgement_id h.acknowledgement_history_id out.acknowledgement_history)
        out.all_history_ack
  pub comment_events :
      length out.all_history_comment
      ≡ length out.comment_history + count_removed out.comment_history
  pub ack_events :
      length out.all_history_ack
      ≡ length out.acknowledgement_history + count_cleared out.acknowledgement_history

HasComment-append :
    (i : Option String) (xs ys : List CommentHistory) → HasComment i xs → HasComment i (xs ++ ys)
HasComment-append i [] ys h = absurd h
HasComment-append i (x ∷ xs) ys (inl e) = inl e
HasComment-append i (x ∷ xs) ys (inr h) = inr (HasComment-append i xs ys h)

HasComment-appended :
    (i : Option String) (xs ys : List CommentHistory) → HasComment i ys → HasComment i (xs ++ ys)
HasComment-appended i [] ys h = h
HasComment-appended i (x ∷ xs) ys h = inr (HasComment-appended i xs ys h)

count_removed-append :
    (xs : List CommentHistory) (c : CommentHistory)
    → count_removed (xs ++ c ∷ []) ≡ count_removed xs + bit c.has_been_removed
count_removed-append [] c = omega arith
count_removed-append (x ∷ xs) c = omega (arith, count_removed-append xs c)

count_cleared-append :
    (xs : List AcknowledgementHistory) (a : AcknowledgementHistory)
    → count_cleared (xs ++ a ∷ []) ≡ count_cleared xs + bit (not (is_zero a.clear_time))
count_cleared-append [] a = omega arith
count_cleared-append (x ∷ xs) a = omega (arith, count_cleared-append xs a)

-- One entry, or two where it has ended.
All-one_or_two :
    {A : Type 0} (P : A → Type 0) (b : Bool) (x y : A)
    → P x
    → P y
    → All P (if b then x ∷ [] else x ∷ y ∷ [])
All-one_or_two P true x y hx hy = (hx, tt)
All-one_or_two P false x y hx hy = (hx, (hy, tt))

length-one_or_two :
    {A : Type 0} (b : Bool) (x y : A) → length (if b then x ∷ [] else x ∷ y ∷ []) ≡ 1 + bit (not b)
length-one_or_two true x y = refl
length-one_or_two false x y = refl

add_comment-IsWhole :
    (hash : Hash) (env : String) (r : CommentRow) (entered : Time) (out : CommentStages)
    → IsWhole out
    → IsWhole (add_comment hash env r entered out)
add_comment-IsWhole hash env r entered out w =
    let c = comment_of hash env r entered in
    let after = out.comment_history ++ c ∷ [] in
    let there : HasComment c.id after =
      HasComment-appended c.id out.comment_history (c ∷ []) (inl refl) in
    let P : HistoryComment → Type 0 = λ h. HasComment h.comment_history_id after in
    let add = comment_add hash env r entered in
    let rem = comment_remove hash env r entered in
    let ended = is_zero (removed r) in
    record {
      comments =
          All-append P out.all_history_comment (if ended then add ∷ [] else add ∷ rem ∷ [])
            (All-map out.all_history_comment
              (λ h there. HasComment-append h.comment_history_id out.comment_history (c ∷ []) there)
              w.comments)
            (All-one_or_two P ended add rem there there);
      acks = w.acks;
      comment_events = omega (
        arith,
        w.comment_events,
        count_removed-append out.comment_history c,
        length-append out.comment_history (c ∷ []),
        length-append out.all_history_comment (if ended then add ∷ [] else add ∷ rem ∷ []),
        length-one_or_two ended add rem,
      );
      ack_events = w.ack_events;
    }

add_ack-IsWhole :
    (hash : Hash) (env : String) (r : CommentRow) (entered : Time) (out : CommentStages)
    → IsWhole out
    → IsWhole (add_ack hash env r entered out)
add_ack-IsWhole hash env r entered out w =
    let a = ack_of hash env r entered in
    let after = out.acknowledgement_history ++ a ∷ [] in
    let there : Has acknowledgement_id a.id after =
      Has-appended acknowledgement_id a.id out.acknowledgement_history (a ∷ []) (inl refl) in
    let P : HistoryAck → Type 0 = λ h. Has acknowledgement_id h.acknowledgement_history_id after in
    let set_ = ack_event hash env "ack_set" r entered in
    let clear = ack_event hash env "ack_clear" r entered in
    let ended = is_zero (removed r) in
    record {
      comments = w.comments;
      acks =
          All-append P out.all_history_ack (if ended then set_ ∷ [] else set_ ∷ clear ∷ [])
            (All-map out.all_history_ack
              (λ h there.
                Has-append acknowledgement_id h.acknowledgement_history_id
                  out.acknowledgement_history (a ∷ []) there)
              w.acks)
            (All-one_or_two P ended set_ clear there there);
      comment_events = w.comment_events;
      ack_events = omega (
        arith,
        w.ack_events,
        count_cleared-append out.acknowledgement_history a,
        length-append out.acknowledgement_history (a ∷ []),
        length-append out.all_history_ack (if ended then set_ ∷ [] else set_ ∷ clear ∷ []),
        length-one_or_two ended set_ clear,
      );
    }

by_type-IsWhole :
    (hash : Hash) (env : String) (r : CommentRow) (entered : Time) (out : CommentStages)
    → IsWhole out
    → IsWhole (by_type hash env r entered out)
by_type-IsWhole hash env r entered out w = user (r.entry_type == 1)
  where
    ack : (b : Bool) → IsWhole (if b then add_ack hash env r entered out else out)
    ack true = add_ack-IsWhole hash env r entered out w
    ack false = w

    user :
        (b : Bool)
        → IsWhole (
            if b
            then add_comment hash env r entered out
            else if r.entry_type == 4
            then add_ack hash env r entered out
            else out)
    user true = add_comment-IsWhole hash env r entered out w
    user false = ack (r.entry_type == 4)

on_entry-IsWhole :
    (hash : Hash) (env : String) (r : CommentRow) (o : Option ℕ) (out : CommentStages)
    → IsWhole out
    → IsWhole (on_entry hash env r o out)
on_entry-IsWhole hash env r none out w = w
on_entry-IsWhole hash env r (some time) out w =
    by_type-IsWhole hash env r (convert_time time r.entry_time_usec) out w

convert_comments-IsWhole :
    (hash : Hash) (env : String) (rs : List CommentRow) (out : CommentStages)
    → IsWhole out
    → IsWhole (convert_comments hash env rs out)
unfolding convert_comments
convert_comments-IsWhole hash env [] out w = w
convert_comments-IsWhole hash env (r ∷ rs) out w =
    let out' : CommentStages = record out { checkpoint = some r.id } in
    let w' : IsWhole out' = record {
      comments = w.comments;
      acks = w.acks;
      comment_events = w.comment_events;
      ack_events = w.ack_events;
    } in
    convert_comments-IsWhole hash env rs (on_entry hash env r r.entry_time out')
      (on_entry-IsWhole hash env r r.entry_time out' w')

-- Whatever the rows are: every entry of the history refers to a comment or an acknowledgement of an
-- earlier stage, and there is one for each of these and one more for each of those that have ended.
pub convert_comment_rows-IsWhole :
    (hash : Hash) (env : String) (rows : List CommentRow)
    → IsWhole (convert_comment_rows hash env rows)
unfolding convert_comment_rows
convert_comment_rows-IsWhole hash env rows =
    convert_comments-IsWhole hash env rows _
      (record { comments = tt; acks = tt; comment_events = refl; ack_events = refl })
