-- ===== src/Notifications/Sorter/Submission.antt =====
-- The submissions of the stream sorter and their order: pkg/notifications/sorter.go,
-- `streamSorterSubmission` and `streamSorterSubmissions.Less`.
use icingadb.Prelude.{
  ℕ, String, List, Bool, true, false, ◌≡◌, arith, if◌then◌else◌, not, ltb, ◌⊎◌, inl, inr, ◌+◌, ◌<◌,
  refl,
}
use icingadb.Prelude.Int.{ℤ, ◌<ℤ?◌, ◌==ℤ◌, pos_part, neg_part}

-- `redis.XMessage`: the stream ID as its bytes, and the values.
pub record XMessage : Type 0 where
  pub id : List ℕ
  pub values : List (String × String)

-- `out`, the output channel, is the channel's number; times are in nanoseconds.
pub record Submission : Type 0 where
  pub msg : XMessage
  pub key : String
  pub out : ℕ
  pub stream_id_ms : ℤ
  pub stream_id_seq : ℤ
  pub submit_time : ℕ

unfoldable pub less : Submission → Submission → Bool
less a b =
    if not (a.stream_id_ms ==ℤ b.stream_id_ms)
    then a.stream_id_ms <ℤ? b.stream_id_ms
    else if not (a.stream_id_seq ==ℤ b.stream_id_seq)
    then a.stream_id_seq <ℤ? b.stream_id_seq
    else ltb a.submit_time b.submit_time

abbrev Lt : ℤ → ℤ → Type 0
Lt a b = pos_part a + neg_part b < pos_part b + neg_part a

abbrev Eql : ℤ → ℤ → Type 0
Eql a b = pos_part a + neg_part b ≡ pos_part b + neg_part a

not_true : (b : Bool) → ¬ (b ≡ true) → b ≡ false
not_true true h = absurd (h refl)
not_true false h = refl

-- `less` as a statement about numbers.
abbrev Before : Submission → Submission → Type 0
Before a b =
    Lt a.stream_id_ms b.stream_id_ms
    ⊎ (Eql a.stream_id_ms b.stream_id_ms
        × (Lt a.stream_id_seq b.stream_id_seq
            ⊎ (Eql a.stream_id_seq b.stream_id_seq × (a.submit_time < b.submit_time))))

less-Before : (a b : Submission) → less a b ≡ true → Before a b
unfolding less
less-Before a b h = ground arith

Before-less : (a b : Submission) → Before a b → less a b ≡ true
unfolding less
Before-less a b h = ground arith

Before-trans : (a b c : Submission) → Before a b → Before b c → Before a c
Before-trans a b c p q = ground arith

Before-total : (a b c : Submission) → Before a c → Before a b ⊎ Before b c
Before-total a b c p = ground arith

-- `Less` is a strict weak order, as `heap.Interface` demands: irreflexive, transitive, and with a
-- transitive negation, so that "neither is less" is an equivalence.
pub less-IsStrictWeakOrder :
    (a b c : Submission)
    → (less a a ≡ false)
      × (less a b ≡ true → less b c ≡ true → less a c ≡ true)
      × (less a b ≡ false → less b c ≡ false → less a c ≡ false)
less-IsStrictWeakOrder a b c = (
  not_true (less a a) (λ p. ground (arith, less-Before a a p)),
  λ p q. Before-less a c (Before-trans a b c (less-Before a b p) (less-Before b c q)),
  λ p q. not_true (less a c) (λ r. elim (Before-total a b c (less-Before a c r)) [
    | inl e ↦ cc (Before-less a b e)
    | inr e ↦ cc (Before-less b c e)
  ]),
)
