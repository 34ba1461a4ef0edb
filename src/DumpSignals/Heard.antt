-- ===== src/DumpSignals/Heard.antt =====
-- What the channels of the dump signals tell, by the events alone.
use icingadb.Prelude.{
  ℕ, ◌<◌, ◌≤◌, String, List, [], ◌∷◌, Bool, true, false, ◌&&◌, ◌||◌, some, ◌≡◌, refl, arith,
  if◌then◌else◌, str_eq, is_some, All, inl, inr, ◌⊎◌, Bool-cases,
}
use icingadb.DumpSignals.{
  DumpSignals, Event, message, call_done, new_dump_signals, lookup, safe_close, close_each,
}

-- What has been heard so far: whether a done signal for all keys came, for which keys `Done` was
-- called, for which of these a done signal came later, and whether any done signal came.
pub record Heard : Type 0 where
  pub all : Bool
  pub asked : String → Bool
  pub told : String → Bool
  pub any : Bool

abbrev pub nothing : Heard
nothing = record { all = false; asked = λ k. false; told = λ k. false; any = false }

abbrev pub hear_all : Heard → Heard
hear_all g = record g { all = true; any = true }

abbrev pub hear_key : String → Heard → Heard
hear_key key g = record g { told = λ k. g.told k || (g.asked k && str_eq key k); any = true }

abbrev pub hear_done : String → Heard → Heard
hear_done key g = if str_eq key "*" then hear_all g else hear_key key g

abbrev pub hear_call : String → Heard → Heard
hear_call key g = record g { asked = λ k. g.asked k || str_eq key k }

abbrev pub hear : Heard → Event → Heard
hear g (message (some key) (some state)) = if str_eq state "done" then hear_done key g else g
hear g (call_done key) = hear_call key g
hear g e = g

-- What a channel of `Done` for the key tells.
abbrev pub tells : Heard → String → Bool
tells g key = g.all || g.told key

abbrev pub Holds : Heard → DumpSignals → String × ℕ → Type 0
Holds g s h = (lookup h.0 s.done_ch ≡ some h.1) ⊎ ((g.all ≡ true) × (s.closed h.1 ≡ true))

pub record Inv (g : Heard) (s : DumpSignals) : Type 0 where
  pub small : All (λ e. e.1 < s.next_ch) s.done_ch
  pub known : (k : String) (c : ℕ) → lookup k s.done_ch ≡ some c → s.closed c ≡ tells g k
  pub apart :
      (j k : String) (c : ℕ) → lookup j s.done_ch ≡ some c → lookup k s.done_ch ≡ some c → j ≡ k
  pub asked : g.all ≡ false → (k : String) → g.asked k ≡ is_some (lookup k s.done_ch)
  pub told : g.all ≡ false → (k : String) → g.asked k ≡ false → g.told k ≡ false
  pub all_done : is_some s.all_done_ch ≡ g.all
  pub all_closed : (c : ℕ) → s.all_done_ch ≡ some c → s.closed c ≡ true
  pub fresh : (c : ℕ) → s.next_ch ≤ c → s.closed c ≡ false
  pub any : s.any_done_sent ≡ g.any
  pub handed : All (Holds g s) s.handed

pub new-Inv : Inv nothing new_dump_signals
unfolding new_dump_signals
new-Inv = record {
  small = tt;
  known = λ k c e. cc;
  apart = λ j k c e e'. cc;
  asked = λ e k. refl;
  told = λ e k e'. refl;
  all_done = refl;
  all_closed = λ c e. cc;
  fresh = λ c e. refl;
  any = refl;
  handed = tt;
}

pub lookup-small :
    (n : ℕ) (k : String) (c : ℕ) (l : List (String × ℕ))
    → All (λ e. e.1 < n) l
    → lookup k l ≡ some c
    → c < n
lookup-small n k c [] h e = cc
lookup-small n k c ((j, d) ∷ l) h e = elim (Bool-cases (str_eq j k)) [
  | inl same ↦ ground (arith, same, e, h.0)
  | inr other ↦ lookup-small n k c l h.1 (ground (arith, other, e))
]

pub close_each_mono :
    (l : List (String × ℕ)) (f : ℕ → Bool) (c : ℕ) → f c ≡ true → close_each l f c ≡ true
unfolding close_each
close_each_mono [] f c e = e
close_each_mono ((k, d) ∷ l) f c e = close_each_mono l (safe_close d f) c (ground (arith, e))

pub close_each-lookup :
    (l : List (String × ℕ)) (f : ℕ → Bool) (k : String) (c : ℕ)
    → lookup k l ≡ some c
    → close_each l f c ≡ true
unfolding close_each
close_each-lookup [] f k c e = cc
close_each-lookup ((j, d) ∷ l) f k c e = elim (Bool-cases (str_eq j k)) [
  | inl same ↦ close_each_mono l (safe_close d f) c (ground (arith, same, e))
  | inr other ↦ close_each-lookup l (safe_close d f) k c (ground (arith, other, e))
]

pub close_each-fresh :
    (l : List (String × ℕ)) (f : ℕ → Bool) (n c : ℕ)
    → All (λ e. e.1 < n) l
    → n ≤ c
    → f c ≡ false
    → close_each l f c ≡ false
unfolding close_each
close_each-fresh [] f n c h le e = e
close_each-fresh ((k, d) ∷ l) f n c h le e =
    close_each-fresh l (safe_close d f) n c h.1 le (ground (arith, h.0, e))

-- The calls of `Done`.
pub hand-Inv :
    (g : Heard) (s : DumpSignals) (key : String) (c : ℕ)
    → Inv g s
    → Holds g s (key, c)
    → Inv g (record s { handed = (key, c) ∷ s.handed })
hand-Inv g s key c inv h = record {
  small = inv.small;
  known = inv.known;
  apart = inv.apart;
  asked = inv.asked;
  told = inv.told;
  all_done = inv.all_done;
  all_closed = inv.all_closed;
  fresh = inv.fresh;
  any = inv.any;
  handed = (h, inv.handed);
}
