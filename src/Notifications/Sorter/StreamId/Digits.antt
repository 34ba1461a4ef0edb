-- ===== src/Notifications/Sorter/StreamId/Digits.antt =====
-- Which stream IDs are parsed, and to what.
use icingadb.Prelude.{
  ℕ, ◌+◌, ◌*◌, ◌<◌, List, [], ◌∷◌, ◌++◌, map, Option, some, ◌≡◌, refl, arith, All, ◌∙◌, ap,
}
use icingadb.Prelude.Int.{ℤ, pos}
use icingadb.Notifications.Sorter.StreamId.{
  dash, parse_digits, two_63, to_positive, parse_int, cut_dash, both, parse_parts,
  parse_redis_stream_id,
}

-- A number is written as its decimal digits, the leading one first.
abbrev pub IsDigits : List ℕ → Type 0
IsDigits = All (λ d. d < 10)

abbrev pub value_from : ℕ → List ℕ → ℕ
value_from n [] = n
value_from n (d ∷ ds) = value_from (10 * n + d) ds

abbrev pub value : List ℕ → ℕ
value ds = value_from 0 ds

abbrev pub written : List ℕ → List ℕ
written = map (λ d. 48 + d)

parse_digits-written :
    (n : ℕ) (ds : List ℕ) → IsDigits ds → parse_digits n (written ds) ≡ some (value_from n ds)
unfolding parse_digits
parse_digits-written n [] h = refl
parse_digits-written n (d ∷ ds) h = ground (arith, h.0, parse_digits-written (10 * n + d) ds h.1)

parse_int-written :
    (d : ℕ) (ds : List ℕ)
    → IsDigits (d ∷ ds)
    → value (d ∷ ds) < two_63
    → parse_int (written (d ∷ ds)) ≡ some (pos (value (d ∷ ds)))
unfolding parse_int to_positive
parse_int-written d ds h small = ground (arith, h.0, small, parse_digits-written 0 (d ∷ ds) h)

cut_dash-written : (ds r : List ℕ) → cut_dash (written ds ++ dash ∷ r) ≡ some (written ds, r)
unfolding cut_dash
cut_dash-written [] r = refl
cut_dash-written (d ∷ ds) r = ground (arith, cut_dash-written ds r)

both-of_parts : {a b : Option ℤ} {x y : ℤ} → a ≡ some x → b ≡ some y → both a b ≡ some (x, y)
both-of_parts e e' = rw (e, e') refl

-- The ID that writes two numbers below 2^63 in decimal digits, whatever their leading zeros, with a dash
-- between them, is parsed to these numbers.
pub parse_redis_stream_id-written :
    (d e : ℕ) (ds es : List ℕ)
    → IsDigits (d ∷ ds)
    → IsDigits (e ∷ es)
    → value (d ∷ ds) < two_63
    → value (e ∷ es) < two_63
    → parse_redis_stream_id (written (d ∷ ds) ++ dash ∷ written (e ∷ es))
      ≡ some (pos (value (d ∷ ds)), pos (value (e ∷ es)))
unfolding parse_redis_stream_id parse_parts
parse_redis_stream_id-written d e ds es hd he sd se =
    ap parse_parts (cut_dash-written (d ∷ ds) (written (e ∷ es)))
    ∙ both-of_parts (parse_int-written d ds hd sd) (parse_int-written e es he se)
