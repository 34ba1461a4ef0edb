-- ===== src/Overdue/Exact.antt =====
-- What the loop leaves of every ID.
use icingadb.Prelude.{
  contains, String, List, [], ◌∷◌, ◌++◌, All, Bool, true, false, not, ◌&&◌, none, if◌then◌else◌,
  ◌≡◌, refl, sym, ap, ◌∙◌,
}
use icingadb.Prelude.Interleavings.{interleave}
use icingadb.Overdue.{
  sdiff, zrangebyscore, Row, Store, perform, Round, unless_failed, select_overdue, init_sync,
  sync_round, sync,
}
use icingadb.Overdue.Sets.{
  contains-sadd, contains-srem, contains-sadd_batches, or_false, contains-zrangebyscore, is_late,
  has_row, is_overdue, is_overdue-select, overdue-has_row,
}
use icingadb.Overdue.Goroutines.{View, view, AllValid, goroutine}
use icingadb.Overdue.Rounds.{IsCalm, late_ids, perform-interleaved, round-performs}

-- A round that nothing fails in, where what is late are IDs.
pub record Goes (valid : String → Bool) (r : Round) : Type 0 where
  pub calm : IsCalm r
  pub ids : (i : String) → is_late i r.next_update r.now ≡ true → valid i ≡ true

contains-late_ids :
    (i : String) (r : Round) → contains i (late_ids r) ≡ is_late i r.next_update r.now
contains-late_ids i r =
    contains-sadd i (zrangebyscore r.next_update r.now) []
    ∙ or_false (contains i (zrangebyscore r.next_update r.now))
    ∙ contains-zrangebyscore i r.next_update r.now

and_first : (a b : Bool) → (a && b) ≡ true → a ≡ true
and_first true b e = refl
and_first false b e = cc

-- What a round makes of an ID, by whether it is late and whether it is marked.
abbrev pub outcome : Bool → Bool → View → View
outcome l m (x, h, o) =
    if l && not m
    then (true, h, h && true)
    else if m && not l
    then (false, h, h && false)
    else (x, h, o)

never_both : (l m : Bool) → ((l && not m) && (m && not l)) ≡ false
never_both true true = refl
never_both true false = refl
never_both false true = refl
never_both false false = refl

pub record Done (valid : String → Bool) (r : Round) (s : Store) : Type 0 where
  pub next : Store
  pub is_next : sync_round valid r s ≡ (next, none)
  pub leaves :
      (i : String)
      → view i next ≡ outcome (is_late i r.next_update r.now) (contains i s.overdue) (view i s)

pub round-Done :
    (valid : String → Bool) (r : Round) (s : Store)
    → Goes valid r
    → AllValid valid s.overdue
    → Done valid r s
round-Done valid r s goes valid_set =
    let late = sdiff (late_ids r) s.overdue in
    let early = sdiff s.overdue (late_ids r) in
    let is_in_late : (i : String)
        → contains i late ≡ (is_late i r.next_update r.now && not (contains i s.overdue)) =
      λ i.
        contains-srem i s.overdue (late_ids r)
        ∙ ap (λ l. l && not (contains i s.overdue)) (contains-late_ids i r) in
    let is_in_early : (i : String)
        → contains i early ≡ (contains i s.overdue && not (is_late i r.next_update r.now)) =
      λ i.
        contains-srem i (late_ids r) s.overdue
        ∙ ap (λ l. contains i s.overdue && not l) (contains-late_ids i r) in
    record {
      next = perform (interleave r.schedule (goroutine true late) (goroutine false early)) s;
      is_next =
          round-performs valid r s goes.calm
            (λ i h. goes.ids i (and_first _ _ (sym (is_in_late i) ∙ h)))
            (λ i h. valid_set i (and_first _ _ (sym (is_in_early i) ∙ h)));
      leaves = λ i.
          perform-interleaved i r.schedule late early s (
            ap (λ a. a && contains i early) (is_in_late i)
            ∙ ap (λ b. (is_late i r.next_update r.now && not (contains i s.overdue)) && b)
                (is_in_early i)
            ∙ never_both (is_late i r.next_update r.now) (contains i s.overdue))
          ∙ ap (by_tests i (contains i early)) (is_in_late i)
          ∙ ap (λ b. by_tests i b (is_late i r.next_update r.now && not (contains i s.overdue)))
              (is_in_early i);
    }
  where
    by_tests : String → Bool → Bool → View
    by_tests i e l =
        if l
        then (true, has_row i s.table, has_row i s.table && true)
        else if e
        then (false, has_row i s.table, has_row i s.table && false)
        else view i s

-- The set of Redis and the table tell the same of every ID that has a row.
abbrev pub Agrees : Store → Type 0
Agrees s = (i : String) → is_overdue i s.table ≡ (has_row i s.table && contains i s.overdue)

-- What is marked is what is late, and so is what is overdue, as far as there are rows.
abbrev pub IsExact : Round → List Row → Store → Type 0
IsExact r rows s =
    (i : String)
    → (contains i s.overdue ≡ is_late i r.next_update r.now)
      × (is_overdue i s.table ≡ (has_row i rows && is_late i r.next_update r.now))

outcome-agreed : (l m h o : Bool) → o ≡ (h && m) → outcome l m (m, h, o) ≡ (l, h, h && l)
outcome-agreed true true h o e = ap (λ x. (true, h, x)) e
outcome-agreed true false h o e = refl
outcome-agreed false true h o e = refl
outcome-agreed false false h o e = ap (λ x. (false, h, x)) e

record Settled (valid : String → Bool) (r : Round) (s : Store) : Type 0 where
  next : Store
  is_next : sync_round valid r s ≡ (next, none)
  exact : IsExact r s.table next
  rows : (i : String) → has_row i next.table ≡ has_row i s.table
  agrees : Agrees next
  valid_set : AllValid valid next.overdue

settle :
    (valid : String → Bool) (r : Round) (s : Store)
    → Goes valid r
    → AllValid valid s.overdue
    → Agrees s
    → Settled valid r s
settle valid r s goes valid_set agrees =
    let d = round-Done valid r s goes valid_set in
    let late : String → Bool = λ i. is_late i r.next_update r.now in
    let left : (i : String)
        → view i d.next ≡ (late i, has_row i s.table, has_row i s.table && late i) =
      λ i.
        d.leaves i
        ∙ outcome-agreed (late i) (contains i s.overdue) (has_row i s.table) (is_overdue i s.table)
            (agrees i) in
    let marked : (i : String) → contains i d.next.overdue ≡ late i =
      λ i. ap (λ (v : View). v.0) (left i) in
    let rows : (i : String) → has_row i d.next.table ≡ has_row i s.table =
      λ i. ap (λ (v : View). v.1) (left i) in
    let flagged : (i : String) → is_overdue i d.next.table ≡ (has_row i s.table && late i) =
      λ i. ap (λ (v : View). v.2) (left i) in
    record {
      next = d.next;
      is_next = d.is_next;
      exact = λ i. (marked i, flagged i);
      rows = rows;
      agrees = λ i.
          flagged i
          ∙ ap (λ h. h && late i) (sym (rows i))
          ∙ ap (λ m. has_row i d.next.table && m) (sym (marked i));
      valid_set = λ i h. goes.ids i (sym (marked i) ∙ h);
    }

contains-init_sync :
    (i : String) (s : Store) → contains i (init_sync s).overdue ≡ is_overdue i s.table
unfolding init_sync
contains-init_sync i s =
    contains-sadd_batches i [] 0 (select_overdue s.table) []
    ∙ or_false (contains i (select_overdue s.table))
    ∙ is_overdue-select i s.table

init_sync-Agrees : (s : Store) → Agrees (init_sync s)
unfolding init_sync
init_sync-Agrees s i =
    overdue-has_row i s.table ∙ ap (λ b. has_row i s.table && b) (sym (contains-init_sync i s))

rounds-IsExact :
    (valid : String → Bool) (r : Round) (rs : List Round) (s : Store)
    → AllValid valid s.overdue
    → Agrees s
    → All (Goes valid) (rs ++ r ∷ [])
    → (s' : Store) × (sync valid (rs ++ r ∷ []) s ≡ (s', none)) × IsExact r s.table s'
unfolding sync
rounds-IsExact valid r [] s valid_set agrees goes =
    let d = settle valid r s goes.0 valid_set agrees in
    (d.next, ap (unless_failed (sync valid [])) d.is_next, d.exact)
rounds-IsExact valid r (r' ∷ rs) s valid_set agrees goes =
    let d = settle valid r' s goes.0 valid_set agrees in
    let rest = rounds-IsExact valid r rs d.next d.valid_set d.agrees goes.1 in
    (
      rest.0,
      ap (unless_failed (sync valid (rs ++ r ∷ []))) d.is_next ∙ rest.1,
      λ i. let e = rest.2 i in (e.0, e.1 ∙ ap (λ h. h && is_late i r.next_update r.now) (d.rows i)),
    )

-- Whatever Redis and the table hold at the start, and in whatever order the goroutines act: if the IDs are
-- valid and no round fails, the loop goes on, and after each round what is marked in Redis is exactly
-- what is late then, and what is overdue in the table is exactly what is late and has a row.
pub sync-IsExact :
    (valid : String → Bool) (r : Round) (rs : List Round) (s : Store)
    → ((i : String) → is_overdue i s.table ≡ true → valid i ≡ true)
    → All (Goes valid) (rs ++ r ∷ [])
    → (s' : Store) × (sync valid (rs ++ r ∷ []) (init_sync s) ≡ (s', none)) × IsExact r s.table s'
unfolding init_sync
sync-IsExact valid r rs s valid_table goes =
    rounds-IsExact valid r rs (init_sync s)
      (λ i h. valid_table i (sym (contains-init_sync i s) ∙ h)) (init_sync-Agrees s) goes
