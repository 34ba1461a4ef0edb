-- ===== src/Overdue/Goroutines.antt =====
-- What the two goroutines of a round do to one ID.
use icingadb.Prelude.{
  contains, String, str_eq, eq_refl, List, [], ◌∷◌, ◌++◌, map, Bool, true, false, not, ◌&&◌, ◌||◌,
  if◌then◌else◌, ◌≡◌, refl, sym, ap, ◌∙◌, subst, Bool-cases, inl, inr,
}
use icingadb.Prelude.Interleavings.{effects, IsNeutral, AllNeutral, effects-append}
use icingadb.Overdue.{
  Member, text, Store, Action, write, mark, act, perform, update, update_db, update_overdue,
  prepend_if, marked_after, texts,
}
use icingadb.Overdue.Sets.{
  same_text, contains-sadd, contains-srem, and_false, has_row, is_overdue, has_row-update,
  is_overdue-update, is_overdue-other,
}

-- What there is of an ID: its member of the set, a row, and one that is overdue.
abbrev pub View : Type 0
View = Bool × Bool × Bool

abbrev pub view : String → Store → View
view i s = (contains i s.overdue, has_row i s.table, is_overdue i s.table)

-- What an action does to it.
abbrev pub effect : String → Action → View → View
effect i (write j b) (m, h, o) = (m, h, if str_eq j i then h && b else o)
effect i (mark true ids) (m, h, o) = (contains i ids || m, h, o)
effect i (mark false ids) (m, h, o) = (m && not (contains i ids), h, o)

pub act-effect : (i : String) (a : Action) (s : Store) → view i (act a s) ≡ effect i a (view i s)
act-effect i (write j b) s =
    ap (λ h. (contains i s.overdue, h, is_overdue i (update j b s.table)))
      (has_row-update i j b s.table)
    ∙ ap (λ o. (contains i s.overdue, has_row i s.table, o))
        (elim (Bool-cases (str_eq j i)) [
          | inl e ↦ rw e (
              subst (λ x. is_overdue i (update x b s.table) ≡ (has_row i s.table && b))
                (sym (same_text j i e)) (is_overdue-update i b s.table))
          | inr e ↦ rw e (is_overdue-other i j b s.table e)
        ])
act-effect i (mark true ids) s =
    ap (λ m. (m, has_row i s.table, is_overdue i s.table)) (contains-sadd i ids s.overdue)
act-effect i (mark false ids) s =
    ap (λ m. (m, has_row i s.table, is_overdue i s.table)) (contains-srem i ids s.overdue)

pub perform-effects :
    (i : String) (acts : List Action) (s : Store)
    → view i (perform acts s) ≡ effects (effect i) acts (view i s)
perform-effects i [] s = refl
perform-effects i (a ∷ acts) s =
    perform-effects i acts (act a s) ∙ ap (effects (effect i) acts) (act-effect i a s)

-- The goroutine for IDs that are all valid.
abbrev pub writes : Bool → List String → List Action
writes b [] = []
writes b (i ∷ ids) = write i b ∷ writes b ids

abbrev pub goroutine : Bool → List String → List Action
goroutine b [] = []
goroutine b (i ∷ ids) = writes b (i ∷ ids) ++ mark b (i ∷ ids) ∷ []

abbrev pub AllValid : (String → Bool) → List String → Type 0
AllValid valid ids = (i : String) → contains i ids ≡ true → valid i ≡ true

abbrev pub as_members : List String → List Member
as_members ids = map (λ (i : String). text i) ids

pub texts-as_members : (ids : List String) → texts (as_members ids) ≡ ids
texts-as_members [] = refl
texts-as_members (i ∷ ids) = ap (λ is. i ∷ is) (texts-as_members ids)

pub update_db-writes :
    (valid : String → Bool) (b : Bool) (ids : List String)
    → AllValid valid ids
    → update_db valid (as_members ids) b ≡ (writes b ids, true)
update_db-writes valid b [] all = refl
update_db-writes valid b (i ∷ ids) all =
    let here : valid i ≡ true = all i (rw (eq_refl i) refl) in
    ap (λ x. prepend_if x (write i b) (update_db valid (as_members ids) b)) here
    ∙ ap (prepend_if true (write i b)) (update_db-writes valid b ids (λ j h. all j (later j h)))
  where
    later : (j : String) → contains j ids ≡ true → contains j (i ∷ ids) ≡ true
    later j h = elim (Bool-cases (str_eq i j)) [ inl e ↦ rw e refl | inr e ↦ rw e h ]

pub update_overdue-goroutine :
    (valid : String → Bool) (b : Bool) (ids : List String)
    → AllValid valid ids
    → update_overdue valid (as_members ids) b ≡ (goroutine b ids, true)
update_overdue-goroutine valid b [] all = refl
update_overdue-goroutine valid b (i ∷ ids) all =
    ap (λ is. marked_after (mark b (i ∷ is)) (update_db valid (as_members (i ∷ ids)) b))
      (texts-as_members ids)
    ∙ ap (marked_after (mark b (i ∷ ids))) (update_db-writes valid b (i ∷ ids) all)

pub write-IsNeutral :
    (i j : String) (b : Bool) → str_eq j i ≡ false → IsNeutral (effect i) (write j b)
write-IsNeutral i j b other (m, h, o) = rw other refl

pub mark-IsNeutral :
    (i : String) (b : Bool) (ids : List String)
    → contains i ids ≡ false
    → IsNeutral (effect i) (mark b ids)
mark-IsNeutral i true ids absent (m, h, o) = rw absent refl
mark-IsNeutral i false ids absent (m, h, o) = rw absent (ap (λ x. (x, h, o)) (kept m))
  where
    kept : (m : Bool) → (m && true) ≡ m
    kept true = refl
    kept false = refl

pub goroutine-AllNeutral :
    (i : String) (b : Bool) (ids : List String)
    → contains i ids ≡ false
    → AllNeutral (effect i) (goroutine b ids)
goroutine-AllNeutral i b [] absent = tt
goroutine-AllNeutral i b (j ∷ ids) absent = from (j ∷ ids) absent
  where
    from :
        (js : List String)
        → contains i js ≡ false
        → AllNeutral (effect i) (writes b js ++ mark b (j ∷ ids) ∷ [])
    from [] no_more = (mark-IsNeutral i b (j ∷ ids) absent, tt)
    from (k ∷ ks) no_more = elim (Bool-cases (str_eq k i)) [
      | inl e ↦ let bad : true ≡ false = subst (λ x. (x || contains i ks) ≡ false) e no_more in cc
      | inr e ↦
          (write-IsNeutral i k b e, from ks (subst (λ x. (x || contains i ks) ≡ false) e no_more))
    ]

pub effects-writes :
    (i : String) (b : Bool) (ids : List String) (m h o : Bool)
    → effects (effect i) (writes b ids) (m, h, o) ≡ (m, h, if contains i ids then h && b else o)
effects-writes i b [] m h o = refl
effects-writes i b (j ∷ ids) m h o = elim (Bool-cases (str_eq j i)) [
  | inl e ↦
      ap (λ x. effects (effect i) (writes b ids) (m, h, if x then h && b else o)) e
      ∙ effects-writes i b ids m h (h && b)
      ∙ ap (λ x. (m, h, x)) (either (contains i ids))
      ∙ ap (λ x. (m, h, if x || contains i ids then h && b else o)) (sym e)
  | inr e ↦
      ap (λ x. effects (effect i) (writes b ids) (m, h, if x then h && b else o)) e
      ∙ effects-writes i b ids m h o
      ∙ ap (λ x. (m, h, if x || contains i ids then h && b else o)) (sym e)
]
  where
    either : (c : Bool) → (if c then h && b else h && b) ≡ (h && b)
    either true = refl
    either false = refl

-- An ID of the goroutine is written and marked.
pub effects-goroutine :
    (i : String) (b : Bool) (ids : List String) (v : View)
    → contains i ids ≡ true
    → effects (effect i) (goroutine b ids) v ≡ (b, v.1, v.1 && b)
effects-goroutine i b [] v there = cc
effects-goroutine i b (j ∷ ids) (m, h, o) there =
    effects-append (effect i) (writes b (j ∷ ids)) (mark b (j ∷ ids) ∷ []) (m, h, o)
    ∙ ap (effect i (mark b (j ∷ ids))) (effects-writes i b (j ∷ ids) m h o)
    ∙ ap (λ x. effect i (mark b (j ∷ ids)) (m, h, if x then h && b else o)) there
    ∙ marked b
  where
    marked : (b : Bool) → effect i (mark b (j ∷ ids)) (m, h, h && b) ≡ (b, h, h && b)
    marked true = ap (λ x. (x || m, h, h && true)) there
    marked false =
        ap (λ x. (m && not x, h, h && false)) there ∙ ap (λ x. (x, h, h && false)) (and_false m)
