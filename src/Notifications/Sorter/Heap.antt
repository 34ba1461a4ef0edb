-- ===== src/Notifications/Sorter/Heap.antt =====
-- Go's `container/heap` as the stream sorter uses it: what its documentation says, as an interface.
use mathlib.Core.Logic.{∥∥₁_elim}
use mathlib.Core.List.{Perm, Permᴰ}
use mathlib.Core.HLevel.{×_prop}
use native.Mathlib.Nat.{ℕ_set}
use icingadb.Prelude.{
  ℕ, ◌+◌, List, [], ◌∷◌, false, ◌≡◌, refl, ap, subst, ◌∙◌, arith, All, if◌then◌else◌, ◌==◌,
}
use icingadb.Notifications.Sorter.Submission.{Submission, less}

-- No element of the list comes before `s`.
abbrev pub IsFirst : Submission → List Submission → Type 0
IsFirst s l = All (λ t. less t s ≡ false) l

-- `heap.Push` and `heap.Pop` over a slice with the order `Less`, element 0 being the root: each
-- keeps the elements and the heap order, and in a heap nothing is less than the root. `pop` is the
-- slice that `heap.Pop` leaves; the element that it returns is the root.
pub record HeapLib : Type 1 where
  pub push : Submission → List Submission → List Submission
  pub pop : List Submission → List Submission
  pub IsHeap : List Submission → Type 0
  pub empty_heap : IsHeap []
  pub push_heap : (s : Submission) (l : List Submission) → IsHeap l → IsHeap (push s l)
  pub push_perm : (s : Submission) (l : List Submission) → Perm (push s l) (s ∷ l)
  pub pop_heap : (s : Submission) (l : List Submission) → IsHeap (s ∷ l) → IsHeap (pop (s ∷ l))
  pub pop_perm : (s : Submission) (l : List Submission) → Perm (pop (s ∷ l)) l
  pub root_first : (s : Submission) (l : List Submission) → IsHeap (s ∷ l) → IsFirst s l

-- The sum of a weight over the list. A statement for every weight is one about the multiset.
abbrev pub total : (Submission → ℕ) → List Submission → ℕ
total f [] = 0
total f (s ∷ l) = f s + total f l

total-permᴰ : (f : Submission → ℕ) {l m : List Submission} → Permᴰ l m → total f l ≡ total f m
total-permᴰ f Permᴰ.nil = refl
total-permᴰ f (Permᴰ.cons e p) = omega (arith, ap f e, total-permᴰ f p)
total-permᴰ f (Permᴰ.swap e g) = omega (arith, ap f e, ap f g)
total-permᴰ f (Permᴰ.trans p q) = total-permᴰ f p ∙ total-permᴰ f q

pub total-perm : (f : Submission → ℕ) {l m : List Submission} → Perm l m → total f l ≡ total f m
total-perm f p = ∥∥₁_elim p (ℕ_set _ _) (total-permᴰ f)

-- How many submissions of the list go to the output.
abbrev pub count_out : ℕ → List Submission → ℕ
count_out o = total (λ s. if s.out == o then 1 else 0)

pub count_out-perm : (o : ℕ) {l m : List Submission} → Perm l m → count_out o l ≡ count_out o m
count_out-perm o p = total-perm _ p

module _ (P : Submission → Type 0) (P_prop : (s : Submission) → IsProp (P s)) where
  pub All-IsProp : (l : List Submission) → IsProp (All P l)
  All-IsProp [] = hlevel
  All-IsProp (s ∷ l) = ×_prop (P_prop s) (All-IsProp l)

  All-permᴰ : {l m : List Submission} → Permᴰ l m → All P l → All P m
  All-permᴰ Permᴰ.nil h = h
  All-permᴰ (Permᴰ.cons e p) h = (subst P e h.0, All-permᴰ p h.1)
  All-permᴰ (Permᴰ.swap e g) h = (subst P g h.1.0, (subst P e h.0, h.1.1))
  All-permᴰ (Permᴰ.trans p q) h = All-permᴰ q (All-permᴰ p h)

  pub All-perm : {l m : List Submission} → Perm l m → All P l → All P m
  All-perm {m = m} p h = ∥∥₁_elim p (All-IsProp m) (λ d. All-permᴰ d h)
