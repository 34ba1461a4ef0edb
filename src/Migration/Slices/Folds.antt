-- ===== src/Migration/Slices/Folds.antt =====
-- A table that is read in slices is read row by row.
use icingadb.Prelude.{
  ℕ, zero, suc, ◌<◌, List, [], ◌∷◌, ◌++◌, All, length, Bool, true, false, Option, none, some, ◌≡◌,
  refl, sym, ap, ◌∙◌, arith, Bool-cases, inl, inr, subst,
}
use icingadb.Migration.Slices.{
  take, filter, rows_beyond, on_checkpoint, on_slice, slice_ido_history,
}
use icingadb.Migration.Slices.Lists.{
  drop, length-drop, last, All-last, All-middle, All-prefix, filter_all, filter-filter, All-filter,
  fold, fold-take-drop,
}

-- The order of IDs, ascending or descending, in which a table is read.
pub record IdOrder (beyond : ℕ → ℕ → Bool) : Type 0 where
  pub asymmetric : (a b : ℕ) → beyond a b ≡ true → beyond b a ≡ false
  pub transitive : (a b c : ℕ) → beyond a b ≡ true → beyond b c ≡ true → beyond a c ≡ true

module _ {R : Type 0} (id_of : R → ℕ) (beyond : ℕ → ℕ → Bool) where
  -- Every row is beyond the rows before it.
  abbrev pub IsOrdered : List R → Type 0
  IsOrdered [] = Unit
  IsOrdered (r ∷ rs) = All (λ x. beyond (id_of r) (id_of x) ≡ true) rs × IsOrdered rs

  IsOrdered-filter : (p : R → Bool) (rs : List R) → IsOrdered rs → IsOrdered (filter p rs)
  IsOrdered-filter p [] o = tt
  IsOrdered-filter p (r ∷ rs) o = elim (Bool-cases (p r)) [
    | inl e ↦ rw e (all_kept rs o.0, IsOrdered-filter p rs o.1)
    | inr e ↦ rw e (IsOrdered-filter p rs o.1)
  ]
    where
      all_kept :
          (xs : List R)
          → All (λ x. beyond (id_of r) (id_of x) ≡ true) xs
          → All (λ x. beyond (id_of r) (id_of x) ≡ true) (filter p xs)
      all_kept [] all = tt
      all_kept (x ∷ xs) all = elim (Bool-cases (p x)) [
        | inl e ↦ rw e (all.0, all_kept xs all.1)
        | inr e ↦ rw e (all_kept xs all.1)
      ]

  -- What is beyond the last row of a slice is what follows the slice.
  pub filter-drop :
      IdOrder beyond
      → (n : ℕ) (r : R) (rs : List R) → IsOrdered (r ∷ rs)
      → filter (λ x. beyond (id_of (last r (take n rs))) (id_of x)) (r ∷ rs) ≡ drop n rs
  filter-drop order n r [] o = at_end n
    where
      itself : beyond (id_of r) (id_of r) ≡ false
      itself = elim (Bool-cases (beyond (id_of r) (id_of r))) [
        | inl e ↦ order.asymmetric _ _ e
        | inr e ↦ e
      ]

      at_end :
          (n : ℕ) → filter (λ x. beyond (id_of (last r (take n []))) (id_of x)) (r ∷ []) ≡ drop n []
      at_end zero = rw itself refl
      at_end (suc n) = rw itself refl
  filter-drop order zero r (r' ∷ rs) o =
      let first = order.asymmetric (id_of r) (id_of r) in
      elim (Bool-cases (beyond (id_of r) (id_of r))) [
        | inl e ↦ let no = first e in cc
        | inr e ↦ rw (e, filter_all (λ x. beyond (id_of r) (id_of x)) (r' ∷ rs) o.0) refl
      ]
  filter-drop order (suc n) r (r' ∷ rs) o =
      let l = last r' (take n rs) in
      let before : beyond (id_of r) (id_of l) ≡ true =
        All-last (λ x. beyond (id_of r) (id_of x) ≡ true) n r' rs (o.0.0) (o.0.1) in
      let not_again = order.asymmetric _ _ before in rw not_again (filter-drop order n r' rs o.1)

  -- What is beyond a row is what follows it.
  pub filter-after :
      IdOrder beyond
      → (xs : List R) (r : R) (ys : List R) → IsOrdered (xs ++ r ∷ ys)
      → filter (λ x. beyond (id_of r) (id_of x)) (xs ++ r ∷ ys) ≡ ys
  filter-after order [] r ys o = elim (Bool-cases (beyond (id_of r) (id_of r))) [
    | inl e ↦ let no = order.asymmetric _ _ e in cc
    | inr e ↦ rw e (filter_all (λ x. beyond (id_of r) (id_of x)) ys o.0)
  ]
  filter-after order (x ∷ xs) r ys o =
      let not_again =
        order.asymmetric _ _ (All-middle (λ y. beyond (id_of x) (id_of y) ≡ true) xs r ys o.0) in
      rw not_again (filter-after order xs r ys o.1)

  pub IsOrdered-before :
      (xs : List R) (r : R) (ys : List R)
      → IsOrdered (xs ++ r ∷ ys)
      → All (λ x. beyond (id_of x) (id_of r) ≡ true) xs
  IsOrdered-before [] r ys o = tt
  IsOrdered-before (x ∷ xs) r ys o = (
    All-middle (λ y. beyond (id_of x) (id_of y) ≡ true) xs r ys o.0,
    IsOrdered-before xs r ys o.1,
  )

  pub IsOrdered-prefix : (xs ys : List R) → IsOrdered (xs ++ ys) → IsOrdered xs
  IsOrdered-prefix [] ys o = tt
  IsOrdered-prefix (x ∷ xs) ys o =
      (All-prefix (λ y. beyond (id_of x) (id_of y) ≡ true) xs ys o.0, IsOrdered-prefix xs ys o.1)

  -- What a callback does that handles the rows one after the other and returns the last one's ID.
  abbrev pub row_by_row : {S : Type 0} → (R → S → S) → List R → S → S × Option ℕ
  row_by_row step [] s = (s, none)
  row_by_row step (r ∷ rs) s = (fold step (r ∷ rs) s, some (id_of (last r rs)))

  module _ (order : IdOrder beyond) {S : Type 0} (on_rows : List R → S → S × Option ℕ)
      (step : R → S → S) (handles : (rs : List R) (s : S) → on_rows rs s ≡ row_by_row step rs s)
      (all : List R) (ordered : IsOrdered all) (bulk : ℕ) where
    abbrev beyond_rows : ℕ → List R
    beyond_rows = rows_beyond id_of beyond all

    after_slice :
        (c : ℕ) (r : R) (rs : List R)
        → beyond_rows c ≡ r ∷ rs
        → beyond_rows (id_of (last r (take bulk rs))) ≡ drop bulk rs
    after_slice c r rs e =
        let l = last r (take bulk rs) in
        let here : All (λ x. beyond c (id_of x) ≡ true) (r ∷ rs) =
          subst (All (λ x. beyond c (id_of x) ≡ true)) e
            (All-filter (λ x. beyond c (id_of x)) all) in
        let past : beyond c (id_of l) ≡ true =
          All-last (λ x. beyond c (id_of x) ≡ true) bulk r rs (here.0) (here.1) in
        let ordered' : IsOrdered (r ∷ rs) =
          subst IsOrdered e (IsOrdered-filter (λ x. beyond c (id_of x)) all ordered) in
        sym (
          filter-filter (λ x. beyond c (id_of x)) (λ x. beyond (id_of l) (id_of x))
            (λ x h. order.transitive c (id_of l) (id_of x) past h) all)
        ∙ ap (filter (λ x. beyond (id_of l) (id_of x))) e
        ∙ filter-drop order bulk r rs ordered'

    on_slice-fold :
        (again : ℕ → S → Option S) (c : ℕ) (s : S) (rs : List R)
        → beyond_rows c ≡ rs
        → ((c' : ℕ) (s' : S)
            → length (beyond_rows c') < length rs
            → again c' s' ≡ some (fold step (beyond_rows c') s'))
        → on_slice on_rows again (take (suc bulk) rs) s ≡ some (fold step rs s)
    on_slice-fold again c s [] e ih = refl
    on_slice-fold again c s (r ∷ rs) e ih =
        let rest = after_slice c r rs e in
        let l = id_of (last r (take bulk rs)) in
        let s' = fold step (r ∷ take bulk rs) s in
        let shorter : length (beyond_rows l) < length (r ∷ rs) =
          subst (λ xs. length xs < length (r ∷ rs)) (sym rest) (length-drop bulk r rs) in
        ap (on_checkpoint again) (handles (r ∷ take bulk rs) s)
        ∙ (ih l s' shorter
            ∙ ap (λ xs. some (fold step xs s')) rest
            ∙ ap (λ (x : S). some x) (fold-take-drop step bulk rs (step r s)))

    -- A table that is read in slices of any size is handled row by row, from the checkpoint on, with
    -- more fuel than there are rows.
    pub slice_ido_history-fold :
        (fuel c : ℕ) (s : S)
        → length (beyond_rows c) < fuel
        → slice_ido_history on_rows beyond_rows (suc bulk) fuel c s
          ≡ some (fold step (beyond_rows c) s)
    unfolding slice_ido_history
    slice_ido_history-fold zero c s h = absurd (omega (arith, h))
    slice_ido_history-fold (suc fuel) c s h =
        on_slice-fold (slice_ido_history on_rows beyond_rows (suc bulk) fuel) c s (beyond_rows c)
          refl (λ c' s' h'. slice_ido_history-fold fuel c' s' (omega (arith, h, h')))
