-- ===== src/DumpSignals/Calls.antt =====
-- The channels of the dump signals through a call of `Done`.
use icingadb.Prelude.{
  ℕ, ◌+◌, String, ◌∷◌, true, false, none, some, ◌≡◌, arith, str_eq, is_some, inl, inr, Bool-cases,
  Option-cases, subst, sym, ◌∙◌, ap, eq_iff, eq_refl, All-map,
}
use icingadb.DumpSignals.{DumpSignals, lookup, done}
use icingadb.DumpSignals.Heard.{Heard, hear_call, Inv, lookup-small, hand-Inv}

-- A first call for the key.
abbrev with_new : String → DumpSignals → DumpSignals
with_new key s = record s { done_ch = (key, s.next_ch) ∷ s.done_ch; next_ch = s.next_ch + 1 }

lookup-with_new :
    (key k : String) (c : ℕ) (s : DumpSignals)
    → lookup key s.done_ch ≡ none
    → lookup k s.done_ch ≡ some c
    → lookup k (with_new key s).done_ch ≡ some c
lookup-with_new key k c s missing e = elim (Bool-cases (str_eq key k)) [
  | inl same ↦ cc (subst (λ j. lookup j s.done_ch ≡ none) ((eq_iff key k).0 same) missing)
  | inr other ↦ ground (arith, e, other)
]

with_new-Inv :
    (g : Heard) (s : DumpSignals) (key : String)
    → Inv g s
    → g.all ≡ false
    → lookup key s.done_ch ≡ none
    → Inv (hear_call key g) (with_new key s)
with_new-Inv g s key inv free missing = record {
  small = (ground arith, All-map s.done_ch (λ e h. ground (arith, h)) inv.small);
  known = λ k c e. elim (Bool-cases (str_eq key k)) [
    | inl same ↦
        let missing_k : lookup k s.done_ch ≡ none =
          subst (λ j. lookup j s.done_ch ≡ none) ((eq_iff key k).0 same) missing in
        let not_asked : g.asked k ≡ false = inv.asked free k ∙ ap is_some missing_k in
        ground (arith, e, same, inv.fresh c, free, inv.told free k not_asked)
    | inr other ↦ inv.known k c (ground (arith, e, other))
  ];
  apart = λ j k c e e'. elim (Bool-cases (str_eq key j)) [
    | inl same ↦ elim (Bool-cases (str_eq key k)) [
      | inl same' ↦ sym ((eq_iff key j).0 same) ∙ (eq_iff key k).0 same'
      | inr other ↦ ground (
        arith,
        e,
        same,
        lookup-small s.next_ch k c s.done_ch inv.small (ground (arith, e', other)),
      )
    ]
    | inr other ↦ elim (Bool-cases (str_eq key k)) [
      | inl same ↦ ground (
        arith,
        e',
        same,
        lookup-small s.next_ch j c s.done_ch inv.small (ground (arith, e, other)),
      )
      | inr other' ↦ inv.apart j k c (ground (arith, e, other)) (ground (arith, e', other'))
    ]
  ];
  asked = λ e k. ground (arith, inv.asked free k);
  told = λ e k q. inv.told free k (ground (arith, q));
  all_done = inv.all_done;
  all_closed = inv.all_closed;
  fresh = λ c e. inv.fresh c (omega arith);
  any = inv.any;
  handed =
      All-map s.handed
        (λ h p. elim p [ inl e ↦ inl (lookup-with_new key h.0 h.1 s missing e) | inr e ↦ inr e ])
        inv.handed;
}

hear_call-Inv :
    (g : Heard) (s : DumpSignals) (key : String)
    → Inv g s
    → (g.all ≡ false → is_some (lookup key s.done_ch) ≡ true)
    → Inv (hear_call key g) s
hear_call-Inv g s key inv h = record {
  small = inv.small;
  known = inv.known;
  apart = inv.apart;
  asked = λ e k. elim (Bool-cases (str_eq key k)) [
    | inl same ↦ ground (arith, inv.asked e k, h e, eq_iff key k, same)
    | inr other ↦ ground (arith, inv.asked e k, other)
  ];
  told = λ e k q. inv.told e k (ground (arith, q));
  all_done = inv.all_done;
  all_closed = inv.all_closed;
  fresh = inv.fresh;
  any = inv.any;
  handed = inv.handed;
}

-- A call of `Done`.
done_all :
    (s : DumpSignals) (key : String) (c : ℕ)
    → s.all_done_ch ≡ some c
    → done key s ≡ record s { handed = (key, c) ∷ s.handed }
unfolding done
done_all s key c e = ground (arith, e)

done_known :
    (s : DumpSignals) (key : String) (c : ℕ)
    → s.all_done_ch ≡ none
    → lookup key s.done_ch ≡ some c
    → done key s ≡ record s { handed = (key, c) ∷ s.handed }
unfolding done
done_known s key c e e' = ground (arith, e, e')

done_first :
    (s : DumpSignals) (key : String)
    → s.all_done_ch ≡ none
    → lookup key s.done_ch ≡ none
    → done key s ≡ record (with_new key s) { handed = (key, s.next_ch) ∷ s.handed }
unfolding done
done_first s key e e' = ground (arith, e, e')

pub done-Inv :
    (g : Heard) (s : DumpSignals) (key : String) → Inv g s → Inv (hear_call key g) (done key s)
done-Inv g s key inv = elim (Option-cases (s.all_done_ch)) [
  | inr (c, e) ↦
      let all : g.all ≡ true = sym inv.all_done ∙ ap is_some e in
      subst (Inv (hear_call key g)) (sym (done_all s key c e)) (
        hand-Inv (hear_call key g) s key c (hear_call-Inv g s key inv (λ e'. cc))
          (inr (all, inv.all_closed c e)))
  | inl e ↦ elim (Option-cases (lookup key s.done_ch)) [
    | inr (c, e') ↦ subst (Inv (hear_call key g)) (sym (done_known s key c e e')) (
        hand-Inv (hear_call key g) s key c (hear_call-Inv g s key inv (λ q. ap is_some e'))
          (inl e'))
    | inl e' ↦ subst (Inv (hear_call key g)) (sym (done_first s key e e')) (
        hand-Inv (hear_call key g) (with_new key s) key s.next_ch
          (with_new-Inv g s key inv (sym inv.all_done ∙ ap is_some e) e')
          (inl (ground (arith, eq_refl key))))
  ]
]
