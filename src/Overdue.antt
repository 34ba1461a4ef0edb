-- ===== src/Overdue.antt =====
-- The overdue indicators: `initSync`, `sync`, `updateOverdue` and `updateDb` in
-- pkg/icingadb/overdue/sync.go, with its script get_overdues.lua, for one type of objects.
--
-- `valid i` is that the text i is that of an ID, so that a `factory` makes an entity of it. The database
-- updates a row at a time and ignores an ID without a row; a set of Redis changes at once. A round's
-- schedule says which of the two goroutines acts next, `stops` after how many actions the database, Redis
-- or the context ended them both.
mod Sets
pub mod Goroutines
pub mod Rounds
pub mod Exact
pub mod Unnoticed
mod Tests
use icingadb.Prelude.{
  ℕ, zero, suc, contains, String, str_eq, List, [], ◌∷◌, ◌++◌, map, Bool, true, false, not, ◌&&◌,
  ◌||◌, Option, none, some, if◌then◌else◌, ltb, ◌==◌, ◌+◌,
}
use icingadb.Prelude.Interleavings.{interleave}

-- The sets of Redis.
abbrev pub sadd : List String → List String → List String
sadd [] s = s
sadd (x ∷ xs) s = let rest = sadd xs s in if contains x rest then rest else x ∷ rest

abbrev pub srem : List String → List String → List String
srem xs [] = []
srem xs (y ∷ s) = let rest = srem xs s in if contains y xs then rest else y ∷ rest

abbrev pub sdiff : List String → List String → List String
sdiff a b = srem b a

-- `ZRANGEBYSCORE ... -inf (now`
abbrev pub zrangebyscore : List (String × ℕ) → ℕ → List String
zrangebyscore [] now = []
zrangebyscore ((i, score) ∷ z) now =
    let rest = zrangebyscore z now in if ltb score now then i ∷ rest else rest

-- What a script returns, by the types that `sync` and `updateDb` ask for.
pub data Member : Type 0 where
  text : String → Member
  other_member : Member

pub data Element : Type 0 where
  members : List Member → Element
  other_element : Element

pub data Reply : Type 0 where
  elements : List Element → Reply
  other_reply : Reply

-- The script: what is late and not yet marked, and what is marked and not late.
abbrev pub get_overdues : List (String × ℕ) → List String → ℕ → Reply
get_overdues next_update overdue now =
    let temp_overdue = sadd (zrangebyscore next_update now) [] in
    elements (
      members (map (λ (i : String). text i) (sdiff temp_overdue overdue))
      ∷ members (map (λ (i : String). text i) (sdiff overdue temp_overdue))
      ∷ [])

-- A row of the table of states.
pub record Row : Type 0 where
  pub id : String
  pub is_overdue : Bool

pub record Store : Type 0 where
  pub overdue : List String
  pub table : List Row

abbrev pub select_overdue : List Row → List String
select_overdue [] = []
select_overdue (r ∷ rs) = let rest = select_overdue rs in if r.is_overdue then r.id ∷ rest else rest

-- The commands of the pipeline, 100 IDs at a time; `n` are those in `ids`.
abbrev pub sadd_batches : List String → ℕ → List String → List String → List String
sadd_batches ids n [] s = elim ids [ [] ↦ s | i ∷ is ↦ sadd (i ∷ is) s ]
sadd_batches ids n (x ∷ xs) s =
    if n + 1 == 100
    then sadd_batches [] 0 xs (sadd (ids ++ x ∷ []) s)
    else sadd_batches (ids ++ x ∷ []) (n + 1) xs s

unfoldable pub init_sync : Store → Store
init_sync s = record s { overdue = sadd_batches [] 0 (select_overdue s.table) [] }

pub data Action : Type 0 where
  write : String → Bool → Action
  mark : Bool → List String → Action

-- `UPDATE ... SET is_overdue=b WHERE id=i`
abbrev pub update : String → Bool → List Row → List Row
update i b [] = []
update i b (r ∷ rs) = (if str_eq r.id i then record r { is_overdue = b } else r) ∷ update i b rs

abbrev pub act : Action → Store → Store
act (write i b) s = record s { table = update i b s.table }
act (mark true ids) s = record s { overdue = sadd ids s.overdue }
act (mark false ids) s = record s { overdue = srem ids s.overdue }

abbrev pub perform : List Action → Store → Store
perform [] s = s
perform (a ∷ as_) s = perform as_ (act a s)

abbrev pub prepend_if : Bool → Action → List Action × Bool → List Action × Bool
prepend_if true a (acts, ok) = (a ∷ acts, ok)
prepend_if false a (acts, ok) = ([], false)

-- The updates up to an ID that is none.
abbrev pub update_db : (String → Bool) → List Member → Bool → List Action × Bool
update_db valid [] b = ([], true)
update_db valid (text i ∷ ms) b = prepend_if (valid i) (write i b) (update_db valid ms b)
update_db valid (other_member ∷ ms) b = ([], false)

abbrev pub texts : List Member → List String
texts [] = []
texts (text i ∷ ms) = i ∷ texts ms
texts (other_member ∷ ms) = texts ms

abbrev pub marked_after : Action → List Action × Bool → List Action × Bool
marked_after m (acts, true) = (acts ++ m ∷ [], true)
marked_after m (acts, false) = (acts, false)

abbrev pub update_overdue : (String → Bool) → List Member → Bool → List Action × Bool
update_overdue valid [] b = ([], true)
update_overdue valid (m ∷ ms) b =
    marked_after (mark b (texts (m ∷ ms))) (update_db valid (m ∷ ms) b)

pub data Error : Type 0 where
  script_failed : Error
  not_a_list : Error
  too_short : Error
  first_not_a_list : Error
  second_not_a_list : Error
  not_updated : Error

-- What is outside in one round: the time, the next updates in Redis, and how the round goes.
pub record Round : Type 0 where
  pub now : ℕ
  pub next_update : List (String × ℕ)
  pub script_fails : Bool
  pub schedule : List Bool
  pub stops : Option ℕ

abbrev pub take : ℕ → List Action → List Action
take zero acts = []
take (suc n) [] = []
take (suc n) (a ∷ acts) = a ∷ take n acts

abbrev pub wait : Option ℕ → Bool → List Action → Store → Store × Option Error
wait (some n) ok acts s = (perform (take n acts) s, some not_updated)
wait none true acts s = (perform acts s, none)
wait none false acts s = (perform acts s, some not_updated)

abbrev pub update_both :
    Round → List Action × Bool → List Action × Bool → Store → Store × Option Error
update_both r (xs, ok) (ys, ok') s = wait r.stops (ok && ok') (interleave r.schedule xs ys) s

abbrev pub on_elements : (String → Bool) → Round → Element → Element → Store → Store × Option Error
on_elements valid r (members ms) (members ms') s =
    update_both r (update_overdue valid ms true) (update_overdue valid ms' false) s
on_elements valid r other_element e s = (s, some first_not_a_list)
on_elements valid r (members ms) other_element s = (s, some second_not_a_list)

abbrev pub on_reply : (String → Bool) → Round → Reply → Store → Store × Option Error
on_reply valid r other_reply s = (s, some not_a_list)
on_reply valid r (elements []) s = (s, some too_short)
on_reply valid r (elements (e ∷ [])) s = (s, some too_short)
on_reply valid r (elements (e ∷ e' ∷ es)) s = on_elements valid r e e' s

unfoldable pub sync_round : (String → Bool) → Round → Store → Store × Option Error
sync_round valid r s =
    if r.script_fails
    then (s, some script_failed)
    else on_reply valid r (get_overdues r.next_update s.overdue r.now) s

abbrev pub unless_failed :
    (Store → Store × Option Error) → Store × Option Error → Store × Option Error
unless_failed again (s, some e) = (s, some e)
unless_failed again (s, none) = again s

-- The loop, for the ticks until the context ends.
unfoldable pub sync : (String → Bool) → List Round → Store → Store × Option Error
unfolding sync_round
sync valid [] s = (s, none)
sync valid (r ∷ rs) s = unless_failed (sync valid rs) (sync_round valid r s)
