-- ===== src/Notifications/Sorter/Tests.antt =====
-- Examples of stream IDs and of a callback's retries.
use icingadb.Prelude.{[], ◌∷◌, ◌++◌, some, true, ◌≡◌, refl, arith, min}
use icingadb.Prelude.Int.{pos, negsuc}
use icingadb.Notifications.Sorter.StreamId.{
  dash, parse_redis_stream_id, parse_parts, parse_int, cut_dash, parse_digits, to_positive,
  to_negative,
}
use icingadb.Notifications.Sorter.StreamId.Digits.{written, parse_redis_stream_id-written}
use icingadb.Notifications.Sorter.Callback.{
  start_callback, retrying, succeeded, failures, doublings, called, ctx_done,
  start_callback-backoff,
}

parse_redis_stream_id-written_example :
    parse_redis_stream_id (written (1 ∷ 7 ∷ []) ++ dash ∷ written (0 ∷ 3 ∷ []))
    ≡ some (pos 17, pos 3)
parse_redis_stream_id-written_example =
    parse_redis_stream_id-written 1 0 (7 ∷ []) (3 ∷ []) (omega arith, (omega arith, tt))
      (omega arith, (omega arith, tt)) (omega arith) (omega arith)

-- "5--8"
negative_sequence : parse_redis_stream_id (53 ∷ 45 ∷ 45 ∷ 56 ∷ []) ≡ some (pos 5, negsuc 7)
unfolding parse_redis_stream_id parse_parts parse_int cut_dash parse_digits to_positive to_negative
negative_sequence = refl

start_callback-backoff_example :
    (start_callback 10000000000 (failures 3) ≡ retrying (min (doublings 2) 10000000000))
    × (start_callback 10000000000 (failures 2 ++ called true ∷ ctx_done ∷ []) ≡ succeeded)
start_callback-backoff_example = start_callback-backoff 10000000000 2 (ctx_done ∷ [])
