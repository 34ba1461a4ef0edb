-- ===== src/Notifications/Sorter/Callback.antt =====
-- The callback of the stream sorter and its retries: pkg/notifications/sorter.go, `startCallback`.
--
-- Durations are in nanoseconds; the largest one is 10 s, so that none overflows.
use icingadb.Prelude.{
  ℕ, zero, suc, ◌+◌, ◌*◌, ◌≤◌, List, [], ◌∷◌, ◌++◌, Bool, true, false, ◌≡◌, refl, arith, min, max,
  ap, ◌∙◌,
}

abbrev pub millisecond : ℕ
millisecond = 1000000

-- What a try of the loop meets: the context's end, or a callback that returned the value.
pub data Try : Type 0 where
  ctx_done : Try
  called : Bool → Try

-- `retrying` tells the next delay. In the other two cases the channel is closed.
pub data CallbackState : Type 0 where
  retrying : ℕ → CallbackState
  succeeded : CallbackState
  given_up : CallbackState

unfoldable pub next_delay : ℕ → ℕ → ℕ
next_delay max_delay d = min (max millisecond (2 * d)) max_delay

unfoldable pub on_try : ℕ → ℕ → Try → CallbackState
on_try max_delay d ctx_done = given_up
on_try max_delay d (called true) = succeeded
on_try max_delay d (called false) = retrying (next_delay max_delay d)

unfoldable pub retry_loop : ℕ → CallbackState → List Try → CallbackState
retry_loop max_delay s [] = s
retry_loop max_delay (retrying d) (t ∷ ts) = retry_loop max_delay (on_try max_delay d t) ts
retry_loop max_delay s (t ∷ ts) = s

unfoldable pub start_callback : ℕ → List Try → CallbackState
start_callback max_delay ts = retry_loop max_delay (retrying 0) ts

abbrev pub failures : ℕ → List Try
failures zero = []
failures (suc n) = called false ∷ failures n

-- 2 ^ n milliseconds.
abbrev pub doublings : ℕ → ℕ
doublings zero = millisecond
doublings (suc n) = 2 * doublings n

doublings-lower : (n : ℕ) → millisecond ≤ doublings n
doublings-lower zero = omega arith
doublings-lower (suc n) = omega (arith, doublings-lower n)

next_delay-doublings : (m n : ℕ) → next_delay m (min (doublings n) m) ≡ min (doublings (suc n)) m
unfolding next_delay
next_delay-doublings m n = omega (arith, doublings-lower n)

retry_loop-failures :
    (m n k : ℕ)
    → retry_loop m (retrying (min (doublings k) m)) (failures n)
      ≡ retrying (min (doublings (n + k)) m)
unfolding retry_loop on_try
retry_loop-failures m zero k = ap (λ j. retrying (min (doublings j) m)) (omega arith)
retry_loop-failures m (suc n) k =
    ap (λ d. retry_loop m (retrying d) (failures n)) (next_delay-doublings m k)
    ∙ retry_loop-failures m n (suc k)
    ∙ ap (λ j. retrying (min (doublings j) m)) (omega arith)

retry_loop-success :
    (m n d : ℕ) (ts : List Try)
    → retry_loop m (retrying d) (failures n ++ called true ∷ ts) ≡ succeeded
unfolding retry_loop on_try
retry_loop-success m zero d [] = refl
retry_loop-success m zero d (t ∷ ts) = refl
retry_loop-success m (suc n) d ts = retry_loop-success m n (next_delay m d) ts

first_delay : (m : ℕ) → next_delay m 0 ≡ min (doublings 0) m
unfolding next_delay
first_delay m = omega arith

delays : (m n : ℕ) → start_callback m (failures (suc n)) ≡ retrying (min (doublings n) m)
unfolding start_callback retry_loop on_try
delays m n =
    ap (λ d. retry_loop m (retrying d) (failures n)) (first_delay m)
    ∙ retry_loop-failures m n 0
    ∙ ap (λ j. retrying (min (doublings j) m)) (omega arith)

-- After n + 1 failures the delay is 2 ^ n milliseconds, or the longest delay if that is less; and the
-- first success after any number of failures closes the channel, whatever would come later.
pub start_callback-backoff :
    (m n : ℕ) (ts : List Try)
    → (start_callback m (failures (suc n)) ≡ retrying (min (doublings n) m))
      × (start_callback m (failures n ++ called true ∷ ts) ≡ succeeded)
unfolding start_callback
start_callback-backoff m n ts = (delays m n, retry_loop-success m n 0 ts)
