-- ===== src/RuntimeUpdates/Order.antt =====
-- Updates that are not parallel are executed in the order of the stream.
use icingadb.Prelude.{
  String, List, [], ◌∷◌, Bool, true, false, Option, none, some, if◌then◌else◌, ◌≡◌, refl, sym, ap,
  ◌∙◌, subst,
}
use icingadb.Prelude.Maps.{StringMap}
use icingadb.RuntimeUpdates.{
  Message, Row, Op, Table, Lane, Updates, Event, read_message, execute_upsert, execute_delete,
  Outcome, running, blocked, dispatch, convert, on_op, on_lane, on_key, executed, upsert_in,
  delete_in, step, run,
}
use icingadb.RuntimeUpdates.InOrder.{
  routed, new_updates, InOrder, AllInOrder, new_lane-InOrder, insert-Inv, routed_other, routed_here,
  dispatched_all, upsert_in-InOrder, delete_in-InOrder, lane-table,
}
use icingadb.RuntimeUpdates.Lanes.{apply_all, without_latest, dispatch-IsSerial}

module _ {V E : Type 0} (structify : String → V → Option (Row E)) where
  module _ (init : StringMap (Table E)) where
    Inv : Updates V E → Type 0
    unfolding AllInOrder
    Inv s = (k : String) → AllInOrder structify init k s.read (s.lanes k)

    Safe : Outcome V E → Type 0
    unfolding Inv
    Safe (running s) = Inv s
    Safe blocked = Unit

    on_op-Inv :
        (k : String) (m : Message V) (l : Lane E) (o : Option (Op E)) (s : Updates V E)
        → m.redis_key ≡ some k
        → convert structify k m ≡ o
        → l.waiting ≡ false
        → InOrder structify init k s.read l
        → Inv s
        → Inv (on_op false structify k m l o s)
    unfolding Inv
    on_op-Inv k m l none s e c idle h i = i
    on_op-Inv k m l (some op) s e c idle h i =
        insert-Inv structify init k (dispatch false op l) s.lanes s.read (m ∷ s.read)
          (record {
            start = h.start;
            starts = h.starts;
            serial = dispatch-IsSerial h.start op l h.serial idle;
            all =
                dispatched_all structify init op l
                ∙ ap (λ (ops : List (Op E)). op ∷ ops) h.all
                ∙ sym (routed_here structify init k m s.read op e c);
          })
          (λ k' other. routed_other structify init k k' m s.read e other) i

    idle_or_blocked :
        (b : Bool) (o : Outcome V E) → (b ≡ false → Safe o) → Safe (if b then blocked else o)
    unfolding Safe
    idle_or_blocked true o h = tt
    idle_or_blocked false o h = h refl

    on_lane-Safe :
        (k : String) (m : Message V) (o : Option (Lane E)) (s : Updates V E)
        → m.redis_key ≡ some k
        → AllInOrder structify init k s.read o
        → Inv s
        → Safe (on_lane false structify k m o s)
    unfolding Safe
    on_lane-Safe k m none s e h i = i
    on_lane-Safe k m (some l) s e h i =
        idle_or_blocked l.waiting _
          (λ idle. on_op-Inv k m l (convert structify k m) s e refl idle h i)

    on_key-Safe :
        (m : Message V) (o : Option String) (s : Updates V E)
        → m.redis_key ≡ o
        → Inv s
        → Safe (on_key false structify m o s)
    unfolding Safe
    on_key-Safe m none s e i = i
    on_key-Safe m (some k) s e i = on_lane-Safe k m (s.lanes k) s e (i k) i

    -- A writer of a type executes what was dispatched.
    executed-Safe :
        (k : String) (o : Option (Lane E)) (s : Updates V E)
        → AllInOrder structify init k s.read o
        → Inv s
        → Safe (executed k o s)
    unfolding Safe Inv
    executed-Safe k none s h i = tt
    executed-Safe k (some l) s h i =
        insert-Inv structify init k l s.lanes s.read s.read h (λ k' other. refl) i

    reading_or_blocked : (b : Bool) (o : Outcome V E) → Safe o → Safe (if b then blocked else o)
    unfolding Safe
    reading_or_blocked true o h = tt
    reading_or_blocked false o h = h

    step-Safe : (e : Event V) (s : Updates V E) → Inv s → Safe (step false structify e s)
    unfolding step Inv
    step-Safe (read_message m) s i =
        reading_or_blocked s.failed _ (on_key-Safe m m.redis_key s refl i)
    step-Safe (execute_upsert k) s i =
        executed-Safe k (upsert_in (s.lanes k)) s
          (upsert_in-InOrder structify init k s.read (s.lanes k) (i k)) i
    step-Safe (execute_delete k) s i =
        executed-Safe k (delete_in (s.lanes k)) s
          (delete_in-InOrder structify init k s.read (s.lanes k) (i k)) i

    on_outcome :
        (k : Updates V E → Outcome V E) (o : Outcome V E)
        → ((s : Updates V E) → Inv s → Safe (k s))
        → Safe o
        → Safe (elim o [ running s ↦ k s | blocked ↦ blocked ])
    unfolding Safe
    on_outcome k (running s) f i = f s i
    on_outcome k blocked f i = tt

    run-Safe : (es : List (Event V)) (s : Updates V E) → Inv s → Safe (run false structify es s)
    unfolding run Safe
    run-Safe [] s i = i
    run-Safe (e ∷ es) s i =
        on_outcome (run false structify es) (step false structify e s) (run-Safe es)
          (step-Safe e s i)

    reached-Inv :
        (es : List (Event V)) (s : Updates V E)
        → run false structify es (new_updates structify init) ≡ running s
        → Inv s
    unfolding Safe Inv
    reached-Inv es s h = subst Safe h (
        run-Safe es (new_updates structify init)
          (λ k. new_lane-InOrder structify init k (init k) refl))

    -- Without parallel updates, and for every timing of the goroutines: the table of an object type is the
    -- one it started as after the operations of the messages that were read for it, in the order of the
    -- stream, the latest one excepted while it is waited for.
    pub run-in_order :
        (es : List (Event V)) (s : Updates V E)
        → run false structify es (new_updates structify init) ≡ running s
        → (k : String) (l : Lane E) → s.lanes k ≡ some l
        → (t : Table E) × (init k ≡ some t)
          × (l.table
              ≡ apply_all t (
                  if l.waiting
                  then without_latest (routed structify k s.read)
                  else routed structify k s.read))
    unfolding Inv
    run-in_order es s h k l e =
        lane-table structify init k s.read (s.lanes k) l (reached-Inv es s h k) e
