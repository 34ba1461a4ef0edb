-- ===== src/DumpSignals/Listening.antt =====
-- What `Listen` and `Done` promise, over every interleaving of messages and calls.
use icingadb.Prelude.{
  List, [], ◌∷◌, Bool, true, false, ◌||◌, ◌≡◌, refl, arith, All, All-map, inl, inr, ◌∙◌, subst, sym,
}
use icingadb.DumpSignals.{
  DumpSignals, Event, message, read_failed, call_done, Outcome, listening, ended, failed,
  new_dump_signals, step, after, listen,
}
use icingadb.DumpSignals.Heard.{Heard, nothing, hear, tells, Inv, new-Inv}
use icingadb.DumpSignals.Channels.{OutcomeInv, is_wip, step-OutcomeInv, done-in_progress}

-- What all the events let one hear, and whether one of them was a sign of a new dump.
abbrev pub heard : Heard → List Event → Heard
heard g [] = g
heard g (e ∷ es) = heard (hear g e) es

abbrev pub any_wip : Heard → List Event → Bool
any_wip g [] = false
any_wip g (e ∷ es) = is_wip g e || any_wip (hear g e) es

-- Each channel that `Done` has returned is closed if and only if `g` tells so.
abbrev pub Exact : Heard → DumpSignals → Type 0
Exact g s = All (λ h. s.closed h.1 ≡ tells g h.0) s.handed

abbrev pub Tells : Heard → Bool → Outcome → Type 0
Tells g wip (listening s) = Exact g s × (s.in_progress ≡ false) × (wip ≡ false)
Tells g wip (ended s) = (s.in_progress ≡ true) × (wip ≡ true)
Tells g wip (failed s) = s.in_progress ≡ false

Inv-Exact : (g : Heard) (s : DumpSignals) → Inv g s → Exact g s
Inv-Exact g s inv =
    All-map s.handed
      (λ h p. elim p [ inl e ↦ inv.known h.0 h.1 e | inr e ↦ ground (arith, e.0, e.1) ]) inv.handed

after-in_progress : (s : DumpSignals) (e : Event) → (after s e).in_progress ≡ s.in_progress
after-in_progress s (message key state) = refl
after-in_progress s read_failed = refl
after-in_progress s (call_done key) = done-in_progress s key

listen-ended :
    (g : Heard) (wip : Bool) (s : DumpSignals) (es : List Event)
    → s.in_progress ≡ true
    → wip ≡ true
    → Tells g wip (listen (ended s) es)
unfolding listen
listen-ended g wip s [] p w = (p, w)
listen-ended g wip s (e ∷ es) p w = listen-ended g wip (after s e) es (after-in_progress s e ∙ p) w

listen-failed :
    (g : Heard) (wip : Bool) (s : DumpSignals) (es : List Event)
    → s.in_progress ≡ false
    → Tells g wip (listen (failed s) es)
unfolding listen
listen-failed g wip s [] p = p
listen-failed g wip s (e ∷ es) p = listen-failed g wip (after s e) es (after-in_progress s e ∙ p)

listen-OutcomeInv :
    (g : Heard) (wip : Bool) (o : Outcome) (es : List Event)
    → OutcomeInv g wip o
    → Tells (heard g es) (wip || any_wip g es) (listen o es)
unfolding listen
listen-OutcomeInv g wip (listening s) [] (inv, p, w) = (Inv-Exact g s inv, p, rw w refl)
listen-OutcomeInv g wip (listening s) (e ∷ es) (inv, p, w) =
    subst (λ b. Tells (heard g (e ∷ es)) (b || any_wip g (e ∷ es)) (listen (step s e) es)) (sym w)
      (listen-OutcomeInv (hear g e) (is_wip g e) (step s e) es (step-OutcomeInv g s e inv p))
listen-OutcomeInv g wip (ended s) es (p, w) =
    listen-ended (heard g es) (wip || any_wip g es) s es p (rw w refl)
listen-OutcomeInv g wip (failed s) es p = listen-failed (heard g es) (wip || any_wip g es) s es p

-- As long as `Listen` goes on, each channel that `Done` returned for a key is closed if and only if
-- a done signal was received for all keys, or one for this key after a first call for it; and
-- `InProgress` is not closed. `Listen` returns without an error, and then `InProgress` is closed, only
-- after a message that is not done follows one that is.
pub listen-Tells :
    (es : List Event)
    → Tells (heard nothing es) (any_wip nothing es) (listen (listening new_dump_signals) es)
unfolding new_dump_signals
listen-Tells es =
    listen-OutcomeInv nothing false (listening new_dump_signals) es (new-Inv, refl, refl)
