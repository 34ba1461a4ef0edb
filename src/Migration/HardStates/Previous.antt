-- ===== src/Migration/HardStates/Previous.antt =====
-- What the cache holds in the end: for each row, the last other state of its object before it.
use icingadb.Prelude.{
  ℕ, ◌+◌, List, [], ◌∷◌, All, All-map, count, count-append, bit, Bool, false, Option, none, some,
  is_some, if◌then◌else◌, ◌==◌, ◌≡◌, refl, arith, Bool-cases, Option-cases, inl, inr, sym, ap, ◌∙◌,
  subst, ==_refl, ==_iff,
}
use icingadb.Migration.Slices.Lists.{fold}
use icingadb.Migration.CacheTables.{select_by, delete_by}
use icingadb.Migration.HardStates.{
  HardRow, HardCache, delete_ids, waiting_with, all_with, start_waiting, keep_waiting, end_waiting,
  on_next, cache_row, finish,
}
use icingadb.Migration.HardStates.Awaited.{
  previous_from, previous_states, previous_of, awaited, IsKnown, awaited-start, awaited-keep,
  awaited-end, IsKnown-cons, delete-IsKnown,
}

abbrev pub Known : HardCache → Type 0
Known c = All (IsKnown c.next_hard_state) c.next_ids

-- What the cache has, and what its waiting IDs get from the rows to come.
abbrev pub outcome : (ℕ × ℕ → Bool) → HardCache → List HardRow → ℕ
outcome q c rows =
    count q c.previous_hard_state + count q (awaited c.next_hard_state rows c.next_ids)

-- A row is handled: it is given its previous state, and nobody else's changes.
record Handled (r : HardRow) (rs : List HardRow) (c c' : HardCache) : Type 0 where
  known : Known c'
  gets :
      (q : ℕ × ℕ → Bool)
      → outcome q c' rs
        ≡ outcome q c (r ∷ rs) + bit (q (r.id, previous_from r.object_id r.last_hard_state rs))

start-Handled :
    (r : HardRow) (rs : List HardRow) (c : HardCache)
    → Known c
    → select_by r.object_id c.next_hard_state ≡ none
    → Handled r rs c (start_waiting r c)
start-Handled r rs c known new =
    let here : select_by r.object_id ((r.object_id, r.last_hard_state) ∷ c.next_hard_state)
        ≡ some r.last_hard_state =
      rw (==_refl r.object_id) refl in
    record {
      known = (
        ap is_some here,
        All-map c.next_ids (λ p k. IsKnown-cons r.object_id r.last_hard_state c.next_hard_state p k)
            known,
      );
      gets = λ q.
          let old = ap (count q) (awaited-start q r rs c.next_hard_state c.next_ids new known) in
          let mine = ap (λ x. bit (q (r.id, previous_of x r.object_id rs))) here in
          omega (arith, old, mine);
    }

keep-Handled :
    (r : HardRow) (rs : List HardRow) (c : HardCache)
    → Known c
    → select_by r.object_id c.next_hard_state ≡ some r.last_hard_state
    → Handled r rs c (keep_waiting r c)
keep-Handled r rs c known same = record {
  known = (ap is_some same, known);
  gets = λ q.
      let old = ap (count q) (awaited-keep q r rs c.next_hard_state c.next_ids same) in
      let mine = ap (λ x. bit (q (r.id, previous_of x r.object_id rs))) same in
      omega (arith, old, mine);
}

end-Handled :
    (r : HardRow) (rs : List HardRow) (s : ℕ) (c : HardCache)
    → Known c
    → select_by r.object_id c.next_hard_state ≡ some s
    → (r.last_hard_state == s) ≡ false
    → Handled r rs c (start_waiting r (end_waiting r c))
end-Handled r rs s c known same changed =
    let states = delete_by r.object_id c.next_hard_state in
    let here : select_by r.object_id ((r.object_id, r.last_hard_state) ∷ states)
        ≡ some r.last_hard_state =
      rw (==_refl r.object_id) refl in
    record {
      known = (
        ap is_some here,
        All-map (delete_ids r.object_id c.next_ids)
            (λ p k. IsKnown-cons r.object_id r.last_hard_state states p k)
            (delete-IsKnown r.object_id c.next_hard_state c.next_ids known),
      );
      gets = λ q.
          let old = awaited-end q r rs s c.next_hard_state c.next_ids same changed in
          let mine = ap (λ x. bit (q (r.id, previous_of x r.object_id rs))) here in
          let moved =
            count-append q (waiting_with r.object_id r.last_hard_state c.next_ids)
              c.previous_hard_state in
          omega (arith, old, mine, moved);
    }

cache_row-Handled :
    (r : HardRow) (rs : List HardRow) (c : HardCache) → Known c → Handled r rs c (cache_row r c)
unfolding cache_row
cache_row-Handled r rs c known = elim (Option-cases (select_by r.object_id c.next_hard_state)) [
  | inl new ↦
      subst (Handled r rs c) (sym (ap (λ o. on_next r o c) new)) (start-Handled r rs c known new)
  | inr (s, e) ↦ subst (Handled r rs c) (sym (ap (λ o. on_next r o c) e)) (changed_or_not s e)
]
  where
    changed_or_not :
        (s : ℕ)
        → select_by r.object_id c.next_hard_state ≡ some s
        → Handled r rs c (on_next r (some s) c)
    changed_or_not s e = elim (Bool-cases (r.last_hard_state == s)) [
      | inl same ↦
          let is : r.last_hard_state ≡ s = (==_iff r.last_hard_state s).0 same in
          subst (λ (c' : HardCache). Handled r rs c c')
            (sym (ap (λ b. if b then keep_waiting r c else start_waiting r (end_waiting r c)) same))
            (keep-Handled r rs c known (e ∙ ap (λ (x : ℕ). some x) (sym is)))
      | inr other ↦
          subst (λ (c' : HardCache). Handled r rs c c')
            (sym
              (ap (λ b. if b then keep_waiting r c else start_waiting r (end_waiting r c)) other))
            (end-Handled r rs s c known e other)
    ]

awaited-nil : (states ids : List (ℕ × ℕ)) → awaited states [] ids ≡ all_with 99 ids
awaited-nil states [] = refl
awaited-nil states ((h, o) ∷ ids) =
    ap (λ x. (h, x) ∷ awaited states [] ids) (pending (select_by o states))
    ∙ ap (λ xs. (h, 99) ∷ xs) (awaited-nil states ids)
  where
    pending : (x : Option ℕ) → previous_of x o [] ≡ 99
    pending none = refl
    pending (some s) = refl

-- From any cache on: the rows get their previous states, and those that wait get theirs.
pub fold-outcome :
    (q : ℕ × ℕ → Bool) (rows : List HardRow) (c : HardCache)
    → Known c
    → count q (finish (fold cache_row rows c)).previous_hard_state
      ≡ outcome q c rows + count q (previous_states rows)
unfolding finish
fold-outcome q [] c known =
    count-append q (all_with 99 c.next_ids) c.previous_hard_state
    ∙ rw (sym (awaited-nil c.next_hard_state c.next_ids)) (omega arith)
fold-outcome q (r ∷ rs) c known =
    let h = cache_row-Handled r rs c known in
    let rest = fold-outcome q rs (cache_row r c) h.known in omega (arith, rest, h.gets q)
