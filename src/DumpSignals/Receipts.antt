-- ===== src/DumpSignals/Receipts.antt =====
-- The channels of the dump signals through a done signal.
use icingadb.Prelude.{
  ℕ, ◌+◌, String, true, false, none, some, ◌≡◌, refl, arith, str_eq, ◌==◌, is_some, inl, inr,
  Bool-cases, subst, sym, ◌∙◌, ap, eq_iff, eq_refl, All-map,
}
use icingadb.DumpSignals.{DumpSignals, lookup, safe_close, close_each}
use icingadb.DumpSignals.Heard.{
  Heard, hear_all, hear_key, Inv, lookup-small, close_each_mono, close_each-lookup,
  close_each-fresh,
}

-- A done signal for a key that no channel waits for, and one for a channel that waits.
pub missing_key-Inv :
    (g : Heard) (s : DumpSignals) (key : String)
    → Inv g s
    → lookup key s.done_ch ≡ none
    → Inv (hear_key key g) (record s { any_done_sent = true })
missing_key-Inv g s key inv missing = record {
  small = inv.small;
  known = λ k c e. elim (Bool-cases (str_eq key k)) [
    | inl same ↦ cc (subst (λ j. lookup j s.done_ch ≡ none) ((eq_iff key k).0 same) missing)
    | inr other ↦ ground (arith, inv.known k c e, other)
  ];
  apart = inv.apart;
  asked = inv.asked;
  told = λ e k q. ground (arith, inv.told e k q, q);
  all_done = inv.all_done;
  all_closed = inv.all_closed;
  fresh = inv.fresh;
  any = refl;
  handed = inv.handed;
}

pub found_key-Inv :
    (g : Heard) (s : DumpSignals) (key : String) (c : ℕ)
    → Inv g s
    → lookup key s.done_ch ≡ some c
    → Inv (hear_key key g) (record s { any_done_sent = true; closed = safe_close c s.closed })
found_key-Inv g s key c inv found = record {
  small = inv.small;
  known = λ k d e. elim (Bool-cases (str_eq key k)) [
    | inl same ↦
        let found_k : lookup k s.done_ch ≡ some c =
          subst (λ j. lookup j s.done_ch ≡ some c) ((eq_iff key k).0 same) found in
        let waits : (q : g.all ≡ false) → g.asked k ≡ true =
          λ q. inv.asked q k ∙ ap is_some found_k in
        elim (Bool-cases (g.all)) [
          | inl all ↦ ground (arith, found_k, e, all)
          | inr free ↦ ground (arith, found_k, e, free, waits free, same)
        ]
    | inr other ↦ elim (Bool-cases (c == d)) [
      | inl same ↦
          let same_key : key ≡ k = inv.apart key k d (ground (arith, found, same)) e in
          cc (subst (λ j. str_eq key j ≡ true) same_key (eq_refl key))
      | inr apart ↦ ground (arith, inv.known k d e, other, apart)
    ]
  ];
  apart = inv.apart;
  asked = inv.asked;
  told = λ e k q. ground (arith, inv.told e k q, q);
  all_done = inv.all_done;
  all_closed = λ d e. ground (arith, inv.all_closed d e);
  fresh = λ d le.
      ground (arith, inv.fresh d le, lookup-small s.next_ch key c s.done_ch inv.small found);
  any = refl;
  handed =
      All-map s.handed (λ h p. elim p [ inl e ↦ inl e | inr e ↦ inr (e.0, ground (arith, e.1)) ])
        inv.handed;
}

-- A done signal for all keys: the first one, and a further one.
pub first_all-Inv :
    (g : Heard) (s : DumpSignals)
    → Inv g s
    → Inv (hear_all g) (record s {
      any_done_sent = true;
      all_done_ch = some s.next_ch;
      next_ch = s.next_ch + 1;
      closed = close_each s.done_ch (safe_close s.next_ch s.closed);
    })
first_all-Inv g s inv = record {
  small = All-map s.done_ch (λ e h. ground (arith, h)) inv.small;
  known = λ k c e. close_each-lookup s.done_ch _ k c e;
  apart = inv.apart;
  asked = λ e. cc;
  told = λ e. cc;
  all_done = refl;
  all_closed = λ c e. close_each_mono s.done_ch _ c (ground (arith, e));
  fresh = λ c le.
      close_each-fresh s.done_ch _ (s.next_ch + 1) c
        (All-map s.done_ch (λ e h. ground (arith, h)) inv.small) le
        (ground (arith, inv.fresh c (omega arith), le));
  any = refl;
  handed =
      All-map s.handed
        (λ h p. elim p [
          | inl e ↦ inl e
          | inr e ↦ inr (refl, close_each_mono s.done_ch _ h.1 (ground (arith, e.1)))
        ])
        inv.handed;
}

pub again_all-Inv :
    (g : Heard) (s : DumpSignals)
    → Inv g s
    → is_some s.all_done_ch ≡ true
    → Inv (hear_all g) (record s { any_done_sent = true })
again_all-Inv g s inv e =
    let all : g.all ≡ true = sym inv.all_done ∙ e in
    record {
      small = inv.small;
      known = λ k c q. ground (arith, inv.known k c q, all);
      apart = inv.apart;
      asked = λ q. cc;
      told = λ q. cc;
      all_done = e;
      all_closed = inv.all_closed;
      fresh = inv.fresh;
      any = refl;
      handed =
          All-map s.handed (λ h p. elim p [ inl q ↦ inl q | inr q ↦ inr (refl, q.1) ]) inv.handed;
    }
