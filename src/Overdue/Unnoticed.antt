-- ===== src/Overdue/Unnoticed.antt =====
-- An ID that is marked in Redis before it has a row.
use icingadb.Prelude.{
  contains, String, List, [], ◌∷◌, All, Bool, true, false, none, ◌≡◌, refl, sym, ap, ◌∙◌,
}
use icingadb.Overdue.{Store, Round, unless_failed, sync}
use icingadb.Overdue.Sets.{is_late, has_row, is_overdue}
use icingadb.Overdue.Goroutines.{View, view, AllValid}
use icingadb.Overdue.Exact.{Goes, outcome, round-Done}

abbrev pub IsLateIn : String → Round → Type 0
IsLateIn i r = is_late i r.next_update r.now ≡ true

outcome-late : (m o : Bool) (v : View) → m ≡ true → outcome true m v ≡ v
outcome-late true o v e = refl
outcome-late false o v e = cc

outcome-marked : (l m h o : Bool) → (outcome l m (m, h, o)).0 ≡ l
outcome-marked true true h o = refl
outcome-marked true false h o = refl
outcome-marked false true h o = refl
outcome-marked false false h o = refl

-- An ID that is marked in Redis while the table has it not overdue, or has no row of it then: for as long as
-- it is late, no round changes that, even if none fails.
pub sync-unnoticed :
    (valid : String → Bool) (i : String) (rs : List Round) (s : Store)
    → AllValid valid s.overdue
    → contains i s.overdue ≡ true
    → is_overdue i s.table ≡ false
    → All (Goes valid) rs
    → All (IsLateIn i) rs
    → (s' : Store) × (sync valid rs s ≡ (s', none)) × (is_overdue i s'.table ≡ false)
unfolding sync
sync-unnoticed valid i [] s valid_set marked missed goes late = (s, refl, missed)
sync-unnoticed valid i (r ∷ rs) s valid_set marked missed goes late =
    let d = round-Done valid r s goes.0 valid_set in
    let same : view i d.next ≡ view i s =
      d.leaves i
      ∙ ap (λ l. outcome l (contains i s.overdue) (view i s)) late.0
      ∙ outcome-late (contains i s.overdue) true (view i s) marked in
    let rest =
      sync-unnoticed valid i rs d.next
        (λ j h. goes.0.ids j (
          sym (
            ap (λ (v : View). v.0) (d.leaves j)
            ∙ outcome-marked (is_late j r.next_update r.now) (contains j s.overdue)
                (has_row j s.table) (is_overdue j s.table))
          ∙ h))
        (ap (λ (v : View). v.0) same ∙ marked) (ap (λ (v : View). v.2) same ∙ missed) goes.1
        late.1 in
    (rest.0, ap (unless_failed (sync valid rs)) d.is_next ∙ rest.1, rest.2)
