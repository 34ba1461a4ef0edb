-- ===== src/RuntimeUpdates/InOrder.antt =====
-- A lane whose operations are executed in the order of the stream.
use icingadb.Prelude.{
  String, str_eq, eq_iff, eq_refl, List, [], ◌∷◌, Bool, true, false, Option, none, some,
  if◌then◌else◌, ◌≡◌, inl, inr, refl, Bool-cases, sym, ap, ◌∙◌, subst,
}
use icingadb.Prelude.Maps.{StringMap, insert}
use icingadb.RuntimeUpdates.{
  Message, Row, Op, upsert, delete, Table, Lane, Updates, dispatch, do_upsert, do_delete, convert,
  upsert_in, delete_in,
}
use icingadb.RuntimeUpdates.Lanes.{
  apply_all, without_latest, IsSerial, do_upsert-IsSerial, do_delete-IsSerial, IsSerial-table,
}

module _ {V E : Type 0} (structify : String → V → Option (Row E)) where
  abbrev pub is_for : String → Option String → Bool
  is_for k none = false
  is_for k (some k') = str_eq k' k

  abbrev cons_op : Option (Op E) → List (Op E) → List (Op E)
  cons_op none ops = ops
  cons_op (some op) ops = op ∷ ops

  -- The operations of an object type among the messages that were read.
  abbrev pub routed : String → List (Message V) → List (Op E)
  routed k [] = []
  routed k (m ∷ ms) =
      if is_for k m.redis_key then cons_op (convert structify k m) (routed k ms) else routed k ms

  module _ (init : StringMap (Table E)) where
    abbrev new_lane : Option (Table E) → Option (Lane E)
    new_lane none = none
    new_lane (some t) =
        some (record { upserts = []; deletes = []; waiting = false; dispatched = []; table = t })

    -- The types that are synchronised, with their tables.
    abbrev pub new_updates : Updates V E
    new_updates = record {
      lanes = λ k. new_lane (init k);
      read = [];
      acknowledged = [];
      failed = false;
    }

    -- The lane is in order, from the table that it started with.
    pub record InOrder (k : String) (read : List (Message V)) (l : Lane E) : Type 0 where
      pub start : Table E
      pub starts : init k ≡ some start
      pub serial : IsSerial start l
      pub all : l.dispatched ≡ routed k read

    unfoldable pub AllInOrder : String → List (Message V) → Option (Lane E) → Type 0
    AllInOrder k read none = Unit
    AllInOrder k read (some l) = InOrder k read l

    pub new_lane-InOrder :
        (k : String) (o : Option (Table E)) → init k ≡ o → AllInOrder k [] (new_lane o)
    unfolding AllInOrder IsSerial
    new_lane-InOrder k none e = tt
    new_lane-InOrder k (some t) e = record {
      start = t;
      starts = e;
      serial = inl (refl, refl, refl, refl);
      all = refl;
    }

    -- One lane is replaced, and the others see nothing of what was read.
    pub insert-Inv :
        (k : String) (l : Lane E) (lanes : StringMap (Lane E)) (read read' : List (Message V))
        → InOrder k read' l
        → ((k' : String) → str_eq k k' ≡ false → routed k' read' ≡ routed k' read)
        → ((k' : String) → AllInOrder k' read (lanes k'))
        → (k' : String) → AllInOrder k' read' (insert k l lanes k')
    unfolding AllInOrder
    insert-Inv k l lanes read read' here others i k' = elim (Bool-cases (str_eq k k')) [
      | inl e ↦ rw e (subst (λ (k' : String). InOrder k' read' l) ((eq_iff k k').0 e) here)
      | inr e ↦ rw e (other_lane (lanes k') (i k') (others k' e))
    ]
      where
        other_lane :
            (o : Option (Lane E))
            → AllInOrder k' read o
            → routed k' read' ≡ routed k' read
            → AllInOrder k' read' o
        other_lane none h same = tt
        other_lane (some l) h same = record {
          start = h.start;
          starts = h.starts;
          serial = h.serial;
          all = h.all ∙ sym same;
        }

    pub routed_other :
        (k k' : String) (m : Message V) (read : List (Message V))
        → m.redis_key ≡ some k
        → str_eq k k' ≡ false
        → routed k' (m ∷ read) ≡ routed k' read
    routed_other k k' m read e other =
        let not_for : is_for k' m.redis_key ≡ false = ap (is_for k') e ∙ other in rw not_for refl

    pub routed_here :
        (k : String) (m : Message V) (read : List (Message V)) (op : Op E)
        → m.redis_key ≡ some k
        → convert structify k m ≡ some op
        → routed k (m ∷ read) ≡ op ∷ routed k read
    routed_here k m read op e c =
        let for_it : is_for k m.redis_key ≡ true = ap (is_for k) e ∙ eq_refl k in
        rw (for_it, c) refl

    pub dispatched_all :
        (op : Op E) (l : Lane E) → (dispatch false op l).dispatched ≡ op ∷ l.dispatched
    dispatched_all (upsert r) l = refl
    dispatched_all (delete d) l = refl

    do_upsert-InOrder :
        (k : String) (read : List (Message V)) (us : List (Row E)) (l : Lane E)
        → l.upserts ≡ us
        → InOrder k read l
        → AllInOrder k read (do_upsert us l)
    unfolding AllInOrder
    do_upsert-InOrder k read [] l e h = tt
    do_upsert-InOrder k read (r ∷ rs) l e h = record {
      start = h.start;
      starts = h.starts;
      serial = do_upsert-IsSerial h.start (r ∷ rs) l e h.serial;
      all = h.all;
    }

    do_delete-InOrder :
        (k : String) (read : List (Message V)) (ds : List String) (l : Lane E)
        → l.deletes ≡ ds
        → InOrder k read l
        → AllInOrder k read (do_delete ds l)
    unfolding AllInOrder
    do_delete-InOrder k read [] l e h = tt
    do_delete-InOrder k read (d ∷ ds) l e h = record {
      start = h.start;
      starts = h.starts;
      serial = do_delete-IsSerial h.start (d ∷ ds) l e h.serial;
      all = h.all;
    }

    pub upsert_in-InOrder :
        (k : String) (read : List (Message V)) (o : Option (Lane E))
        → AllInOrder k read o
        → AllInOrder k read (upsert_in o)
    unfolding AllInOrder
    upsert_in-InOrder k read none h = tt
    upsert_in-InOrder k read (some l) h = do_upsert-InOrder k read l.upserts l refl h

    pub delete_in-InOrder :
        (k : String) (read : List (Message V)) (o : Option (Lane E))
        → AllInOrder k read o
        → AllInOrder k read (delete_in o)
    unfolding AllInOrder
    delete_in-InOrder k read none h = tt
    delete_in-InOrder k read (some l) h = do_delete-InOrder k read l.deletes l refl h

    pub lane-table :
        (k : String) (read : List (Message V)) (o : Option (Lane E)) (l : Lane E)
        → AllInOrder k read o
        → o ≡ some l
        → (t : Table E) × (init k ≡ some t)
          × (l.table
              ≡ apply_all t (if l.waiting then without_latest (routed k read) else routed k read))
    unfolding AllInOrder
    lane-table k read none l h e = cc
    lane-table k read (some l') l h e =
        let lane = subst (AllInOrder k read) e h in
        (
          lane.start,
          lane.starts,
          IsSerial-table lane.start l lane.serial
              ∙ ap (λ ops. apply_all lane.start (if l.waiting then without_latest ops else ops))
                  lane.all,
        )
