-- ===== src/Notifications/Sorter/StreamId.antt =====
-- Redis stream IDs: pkg/notifications/sorter.go, `parseRedisStreamId` and `submit`.
--
-- A string is the list of its bytes, since Go's `strconv` and the search for a dash read bytes.
pub mod Digits
use icingadb.Prelude.{
  ℕ, ◌+◌, ◌-◌, ◌*◌, ◌^◌, ◌<◌, ◌≤◌, String, List, [], ◌∷◌, ◌++◌, map, Bool, true, false, not, ◌&&◌,
  ◌||◌, Option, none, some, ◌≡◌, ◌≢◌, refl, arith, if◌then◌else◌, ltb, leb, ◌==◌, All, inl, inr,
  Bool-cases, Option-cases, ◌∙◌, ap, subst, sym,
}
use icingadb.Prelude.Int.{ℤ, pos, negsuc, neg, pos_part, neg_part}
use icingadb.Notifications.Sorter.Submission.{XMessage, Submission}

abbrev pub dash : ℕ
dash = 45

abbrev pub plus : ℕ
plus = 43

abbrev pub is_digit : ℕ → Bool
is_digit b = leb 48 b && ltb b 58

-- The digits of `strconv.ParseUint` with base 10; whether the value fits is tested at the end.
unfoldable pub parse_digits : ℕ → List ℕ → Option ℕ
parse_digits n [] = some n
parse_digits n (b ∷ l) =
    let rest = parse_digits (10 * n + (b - 48)) l in if is_digit b then rest else none

abbrev pub parse_uint : List ℕ → Option ℕ
parse_uint [] = none
parse_uint (b ∷ l) = parse_digits 0 (b ∷ l)

abbrev pub two_63 : ℕ
two_63 = 9223372036854775808

unfoldable pub to_positive : Option ℕ → Option ℤ
to_positive none = none
to_positive (some n) = if ltb n two_63 then some (pos n) else none

unfoldable pub to_negative : Option ℕ → Option ℤ
to_negative none = none
to_negative (some n) = if leb n two_63 then some (neg n) else none

-- `strconv.ParseInt(s, 10, 64)`; `none` is an error.
unfoldable pub parse_int : List ℕ → Option ℤ
parse_int [] = none
parse_int (b ∷ l) =
    if b == plus
    then to_positive (parse_uint l)
    else if b == dash
    then to_negative (parse_uint l)
    else to_positive (parse_uint (b ∷ l))

abbrev pub before : ℕ → Option (List ℕ × List ℕ) → Option (List ℕ × List ℕ)
before b none = none
before b (some (l, r)) = some (b ∷ l, r)

-- What stands before and after the first dash, if there is one.
unfoldable pub cut_dash : List ℕ → Option (List ℕ × List ℕ)
cut_dash [] = none
cut_dash (b ∷ l) = let rest = cut_dash l in if b == dash then some ([], l) else before b rest

abbrev pub both : Option ℤ → Option ℤ → Option (ℤ × ℤ)
both (some ms) (some seq) = some (ms, seq)
both _ _ = none

unfoldable pub parse_parts : Option (List ℕ × List ℕ) → Option (ℤ × ℤ)
parse_parts none = none
parse_parts (some ([], seq)) = none
parse_parts (some (b ∷ ms, seq)) = both (parse_int (b ∷ ms)) (parse_int seq)

unfoldable pub parse_redis_stream_id : List ℕ → Option (ℤ × ℤ)
parse_redis_stream_id id = parse_parts (cut_dash id)

-- What the `select` of `submit` does.
pub data Sending : Type 0 where
  received : Sending
  timed_out : Sending
  sorter_done : Sending

pub data Submitted : Type 0 where
  accepted : Submission → Submitted
  bad_id : Submitted
  submission_timed_out : Submitted
  cancelled : Submitted

unfoldable pub send_submission : Submission → Sending → Submitted
send_submission s received = accepted s
send_submission s timed_out = submission_timed_out
send_submission s sorter_done = cancelled

unfoldable pub submit : ℕ → XMessage → String → ℕ → Sending → Submitted
unfolding send_submission
submit now msg key out sending = elim (parse_redis_stream_id msg.id) [
  | none ↦ bad_id
  | some (ms, seq) ↦
      send_submission
        (record {
          msg = msg;
          key = key;
          out = out;
          stream_id_ms = ms;
          stream_id_seq = seq;
          submit_time = now;
        })
        sending
]
