-- ===== src/DumpSignals/Channels.antt =====
-- The channels of the dump signals, through every event.
use icingadb.Prelude.{
  ℕ, ◌+◌, String, Bool, true, false, not, ◌&&◌, none, some, ◌≡◌, refl, arith, if◌then◌else◌, str_eq,
  is_some, inl, inr, Bool-cases, Option-cases, subst, sym, ◌∙◌,
}
use icingadb.DumpSignals.{
  DumpSignals, Event, message, read_failed, call_done, Outcome, listening, ended, failed, lookup,
  safe_close, close_each, on_all_done, on_key_done, on_done, on_state, on_message, done, step,
}
use icingadb.DumpSignals.Heard.{Heard, hear_all, hear_key, hear_done, hear, Inv}
use icingadb.DumpSignals.Calls.{done-Inv}
use icingadb.DumpSignals.Receipts.{missing_key-Inv, found_key-Inv, first_all-Inv, again_all-Inv}

abbrev noted : DumpSignals → DumpSignals
noted s = record s { any_done_sent = true }

on_all_done-Inv : (g : Heard) (s : DumpSignals) → Inv g s → Inv (hear_all g) (noted (on_all_done s))
unfolding on_all_done
on_all_done-Inv g s inv =
    let closing = record s {
      all_done_ch = some s.next_ch;
      next_ch = s.next_ch + 1;
      closed = close_each s.done_ch (safe_close s.next_ch s.closed);
    } in
    let motive = λ (b : Bool). Inv (hear_all g) (noted (if b then s else closing)) in
    elim (Bool-cases (is_some s.all_done_ch)) [
      | inl again ↦ subst motive (sym again) (again_all-Inv g s inv again)
      | inr first ↦ subst motive (sym first) (first_all-Inv g s inv)
    ]

on_key_done_missing :
    (s : DumpSignals) (key : String) → lookup key s.done_ch ≡ none → on_key_done key s ≡ s
unfolding on_key_done
on_key_done_missing s key e = ground (arith, e)

on_key_done_found :
    (s : DumpSignals) (key : String) (c : ℕ)
    → lookup key s.done_ch ≡ some c
    → on_key_done key s ≡ record s { closed = safe_close c s.closed }
unfolding on_key_done
on_key_done_found s key c e = ground (arith, e)

on_key_done-Inv :
    (g : Heard) (s : DumpSignals) (key : String)
    → Inv g s
    → Inv (hear_key key g) (noted (on_key_done key s))
on_key_done-Inv g s key inv =
    let motive = λ (t : DumpSignals). Inv (hear_key key g) (noted t) in
    elim (Option-cases (lookup key s.done_ch)) [
      | inl missing ↦
          subst motive (sym (on_key_done_missing s key missing))
            (missing_key-Inv g s key inv missing)
      | inr (c, found) ↦
          subst motive (sym (on_key_done_found s key c found)) (found_key-Inv g s key c inv found)
    ]

on_done-Inv :
    (g : Heard) (s : DumpSignals) (key : String)
    → Inv g s
    → Inv (hear_done key g) (noted (on_done key s))
on_done-Inv g s key inv =
    let motive = λ (b : Bool).
      Inv (if b then hear_all g else hear_key key g)
        (noted (if b then on_all_done s else on_key_done key s)) in
    elim (Bool-cases (str_eq key "*")) [
      | inl star ↦ subst motive (sym star) (on_all_done-Inv g s inv)
      | inr one ↦ subst motive (sym one) (on_key_done-Inv g s key inv)
    ]

-- What is known of the signals while `Listen` goes on, and when it has ended.
abbrev pub OutcomeInv : Heard → Bool → Outcome → Type 0
OutcomeInv g wip (listening s) = Inv g s × (s.in_progress ≡ false) × (wip ≡ false)
OutcomeInv g wip (ended s) = (s.in_progress ≡ true) × (wip ≡ true)
OutcomeInv g wip (failed s) = s.in_progress ≡ false

-- The event is a message without done state after a done signal.
abbrev pub is_wip : Heard → Event → Bool
is_wip g (message (some key) (some state)) = not (str_eq state "done") && g.any
is_wip g e = false

pub done-in_progress : (s : DumpSignals) (key : String) → (done key s).in_progress ≡ s.in_progress
unfolding done
done-in_progress s key = ground arith

on_done-in_progress : (s : DumpSignals) (key : String) → (on_done key s).in_progress ≡ s.in_progress
unfolding on_all_done on_key_done
on_done-in_progress s key = ground arith

on_state-OutcomeInv :
    (g : Heard) (s : DumpSignals) (key : String) (b : Bool)
    → Inv g s
    → s.in_progress ≡ false
    → OutcomeInv (if b then hear_done key g else g) (not b && g.any) (on_state key b s)
unfolding on_state
on_state-OutcomeInv g s key true inv p =
    (on_done-Inv g s key inv, on_done-in_progress s key ∙ p, refl)
on_state-OutcomeInv g s key false inv p =
    let motive = λ (b : Bool).
      OutcomeInv g g.any (if b then ended (record s { in_progress = true }) else listening s) in
    elim (Bool-cases (g.any)) [
      | inl any ↦ subst motive (sym (inv.any ∙ any)) (refl, any)
      | inr quiet ↦ subst motive (sym (inv.any ∙ quiet)) (inv, p, quiet)
    ]

pub step-OutcomeInv :
    (g : Heard) (s : DumpSignals) (e : Event)
    → Inv g s
    → s.in_progress ≡ false
    → OutcomeInv (hear g e) (is_wip g e) (step s e)
unfolding step on_message
step-OutcomeInv g s (message none state) inv p = p
step-OutcomeInv g s (message (some key) none) inv p = p
step-OutcomeInv g s (message (some key) (some state)) inv p =
    on_state-OutcomeInv g s key (str_eq state "done") inv p
step-OutcomeInv g s read_failed inv p = p
step-OutcomeInv g s (call_done key) inv p = (done-Inv g s key inv, done-in_progress s key ∙ p, refl)
