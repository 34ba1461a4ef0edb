-- ===== src/RuntimeUpdates/Lanes.antt =====
-- One object type whose updates are not parallel: at most one operation is on its way.
use icingadb.Prelude.{
  String, List, [], ◌∷◌, ◌++◌, true, false, Option, none, some, if◌then◌else◌, ◌≡◌, ◌⊎◌, inl, inr,
  refl, sym, ap, ◌∙◌,
}
use icingadb.RuntimeUpdates.{
  Row, Op, upsert, delete, Table, Lane, apply, dispatch, do_upsert, do_delete,
}

module _ {E : Type 0} where
  -- The table after all operations of a list, the latest first.
  abbrev pub apply_all : Table E → List (Op E) → Table E
  apply_all t [] = t
  apply_all t (op ∷ ops) = apply op (apply_all t ops)

  abbrev pub without_latest : List (Op E) → List (Op E)
  without_latest [] = []
  without_latest (op ∷ ops) = ops

  -- Only this operation is on its way to the database.
  abbrev pub IsPending : Op E → Lane E → Type 0
  IsPending (upsert r) l = (l.upserts ≡ r ∷ []) × (l.deletes ≡ [])
  IsPending (delete d) l = (l.upserts ≡ []) × (l.deletes ≡ d ∷ [])

  -- Nothing is dispatched that is not executed, or just the latest operation is.
  unfoldable pub IsSettled : Table E → Lane E → Type 0
  IsSettled t l =
      (l.waiting ≡ false)
      × (l.upserts ≡ [])
      × (l.deletes ≡ [])
      × (l.table ≡ apply_all t l.dispatched)

  unfoldable pub IsSerial : Table E → Lane E → Type 0
  unfolding IsSettled
  IsSerial t l =
      IsSettled t l
      ⊎ ((op : Op E) × (before : List (Op E)) × (l.waiting ≡ true)
          × (l.dispatched ≡ op ∷ before)
          × (l.table ≡ apply_all t before)
          × IsPending op l)

  pub dispatch-IsSerial :
      (t : Table E) (op : Op E) (l : Lane E)
      → IsSerial t l
      → l.waiting ≡ false
      → IsSerial t (dispatch false op l)
  unfolding IsSerial
  dispatch-IsSerial t op l (inr (op', before, w, d, tb, p)) idle = cc
  dispatch-IsSerial t (upsert r) l (inl (w, u, d, tb)) idle =
      inr (upsert r, l.dispatched, refl, refl, tb, (ap (λ us. us ++ r ∷ []) u, d))
  dispatch-IsSerial t (delete x) l (inl (w, u, d, tb)) idle =
      inr (delete x, l.dispatched, refl, refl, tb, (u, ap (λ ds. ds ++ x ∷ []) d))

  abbrev pub AllSerial : Table E → Option (Lane E) → Type 0
  AllSerial t none = Unit
  AllSerial t (some l) = IsSerial t l

  pub do_upsert-IsSerial :
      (t : Table E) (us : List (Row E)) (l : Lane E)
      → l.upserts ≡ us
      → IsSerial t l
      → AllSerial t (do_upsert us l)
  unfolding IsSerial
  do_upsert-IsSerial t [] l e s = tt
  do_upsert-IsSerial t (r ∷ rs) l e (inl (w, u, d, tb)) = cc
  do_upsert-IsSerial t (r ∷ rs) l e (inr (delete x, before, w, d, tb, (u, ds))) = cc
  do_upsert-IsSerial t (r ∷ rs) l e (inr (upsert r', before, w, d, tb, (u, ds))) =
      let same : r ≡ r' = cc in
      let rest : rs ≡ [] = cc in
      inl (
        refl,
        rest,
        ds,
        ap (apply (upsert r)) tb
            ∙ ap (λ (x : Row E). apply (upsert x) (apply_all t before)) same
            ∙ sym (ap (apply_all t) d),
      )

  pub do_delete-IsSerial :
      (t : Table E) (xs : List String) (l : Lane E)
      → l.deletes ≡ xs
      → IsSerial t l
      → AllSerial t (do_delete xs l)
  unfolding IsSerial
  do_delete-IsSerial t [] l e s = tt
  do_delete-IsSerial t (x ∷ xs) l e (inl (w, u, d, tb)) = cc
  do_delete-IsSerial t (x ∷ xs) l e (inr (upsert r, before, w, d, tb, (u, ds))) = cc
  do_delete-IsSerial t (x ∷ xs) l e (inr (delete x', before, w, d, tb, (u, ds))) =
      let same : x ≡ x' = cc in
      let rest : xs ≡ [] = cc in
      inl (
        refl,
        u,
        rest,
        ap (apply (delete x)) tb
            ∙ ap (λ (x : String). apply (delete x) (apply_all t before)) same
            ∙ sym (ap (apply_all t) d),
      )

  -- What the table of a lane is, by what was dispatched.
  pub IsSerial-table :
      (t : Table E) (l : Lane E)
      → IsSerial t l
      → l.table ≡ apply_all t (if l.waiting then without_latest l.dispatched else l.dispatched)
  unfolding IsSerial
  IsSerial-table t l (inl (w, u, d, tb)) = rw w tb
  IsSerial-table t l (inr (op, before, w, d, tb, p)) = rw (w, d) tb
