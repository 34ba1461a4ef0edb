-- ===== src/History/Stage.antt =====
-- One stage of a history pipeline: `writeMultiEntityStage` in pkg/icingadb/history/sync.go.
--
-- `convert` is `entryToEntities`. The entities it yields are pointers to new objects: a `Ref` names the
-- entity by the `State` it belongs to and its place in the slice, and a `State` is named by the number
-- of those before it. A schedule is the list of what the three goroutines do; `blocked` is the answer
-- to what they cannot do then. `written` is what the database has, which reports each of the
-- entities it was given at most once. A context may end at any time.
pub mod Invariant
pub mod Found
pub mod Outstanding
pub mod Steps
pub mod Forwarded
pub mod Runs
pub mod Delivery
pub mod Stuck
mod Tests
use icingadb.Prelude.{
  ℕ, suc, ◌-◌, List, [], ◌∷◌, ◌++◌, map, length, Bool, true, false, not, ◌&&◌, Option, none, some,
  if◌then◌else◌, ◌==◌,
}

pub record Ref : Type 0 where
  pub job : ℕ
  pub place : ℕ

-- `upserted` and `take_skipped` say whether the message that is due is sent before the context ends.
pub data Event (M : Type 0) : Type 0 where
  receive : M → Event M
  insert_next : Event M
  upserted : Ref → Bool → Event M
  take_skipped : Bool → Event M
  close_in : Event M
  cancel_reader : Event M
  end_forwarder : Event M

-- `message` and `pending` are the fields of the `State`s, and `state` is the map to them. `todo` is what
-- the first goroutine still has to send to `insert`, and `skipping` what it sends to `skipped`.
-- `reading` and `forwarding` say that the first and the third goroutine run.
pub record Stage (M : Type 0) : Type 0 where
  pub state : List (Ref × ℕ)
  pub message : ℕ → M
  pub pending : ℕ → ℕ
  pub next : ℕ
  pub todo : List Ref
  pub inserting : List Ref
  pub written : List Ref
  pub skipping : Option M
  pub received : List M
  pub out : List M
  pub reading : Bool
  pub forwarding : Bool
  pub failed : Bool

pub data Outcome (M : Type 0) : Type 0 where
  running : Stage M → Outcome M
  blocked : Outcome M
  panicked : Outcome M

abbrev pub same_ref : Ref → Ref → Bool
same_ref r r' = (r.job == r'.job) && (r.place == r'.place)

abbrev pub set {ℓ} : {A : Type ℓ} → ℕ → A → (ℕ → A) → ℕ → A
set j a f = λ i. if i == j then a else f i

abbrev pub find : Ref → List (Ref × ℕ) → Option ℕ
find r [] = none
find r ((r', j) ∷ m) = if same_ref r r' then some j else find r m

abbrev pub delete : Ref → List (Ref × ℕ) → List (Ref × ℕ)
delete r [] = []
delete r ((r', j) ∷ m) = if same_ref r r' then m else (r', j) ∷ delete r m

abbrev pub is_in : Ref → List Ref → Bool
is_in r [] = false
is_in r (r' ∷ rs) = if same_ref r r' then true else is_in r rs

abbrev pub remove : Ref → List Ref → List Ref
remove r [] = []
remove r (r' ∷ rs) = if same_ref r r' then rs else r' ∷ remove r rs

-- The entities of a slice, from a place on.
abbrev pub refs {ℓ} : {E : Type ℓ} → ℕ → ℕ → List E → List Ref
refs j k [] = []
refs j k (e ∷ es) = record { job = j; place = k } ∷ refs j (suc k) es

abbrev pub owned_by : ℕ → Ref → Ref × ℕ
owned_by j r = (r, j)

module _ {M : Type 0} where
  pub new_stage : M → Stage M
  new_stage empty = record {
    state = [];
    message = λ j. empty;
    pending = λ j. 0;
    next = 0;
    todo = [];
    inserting = [];
    written = [];
    skipping = none;
    received = [];
    out = [];
    reading = true;
    forwarding = true;
    failed = false;
  }

  -- A message that `convert` yields entities for: all of them are in the map before one is sent.
  abbrev pub start_job : {E : Type 0} → M → List E → Stage M → Stage M
  start_job m es s = record s {
    state = map (owned_by s.next) (refs s.next 0 es) ++ s.state;
    message = set s.next m s.message;
    pending = set s.next (length es) s.pending;
    next = suc s.next;
    todo = refs s.next 0 es;
    received = m ∷ s.received;
  }

  abbrev pub on_entities : {E : Type 0} → M → Option (List E) → Stage M → Stage M
  on_entities m none s = record s { reading = false; failed = true; received = m ∷ s.received }
  on_entities m (some []) s = record s { skipping = some m; received = m ∷ s.received }
  on_entities m (some (e ∷ es)) s = start_job m (e ∷ es) s

  -- `out <- m`, unless the context ends first.
  abbrev pub forward : M → Bool → Stage M → Stage M
  forward m true s = record s { out = m ∷ s.out }
  forward m false s = record s { forwarding = false }

  abbrev pub count_down : Ref → ℕ → Stage M → Stage M
  count_down r j s = record s {
    state = delete r s.state;
    pending = set j (s.pending j - 1) s.pending;
    inserting = remove r s.inserting;
    written = r ∷ s.written;
  }

  abbrev pub on_state : Ref → Bool → Option ℕ → Stage M → Outcome M
  on_state r sent none s = panicked
  on_state r sent (some j) s =
      if s.pending j == 1
      then running (forward (s.message j) sent (count_down r j s))
      else running (count_down r j s)

  abbrev pub is_idle : Stage M → Bool
  is_idle s =
      s.reading && elim (s.todo) [ [] ↦ elim (s.skipping) [ none ↦ true | _ ↦ false ] | _ ↦ false ]

  abbrev pub insert_todo : List Ref → Stage M → Outcome M
  insert_todo [] s = blocked
  insert_todo (r ∷ rs) s = running (record s { todo = rs; inserting = r ∷ s.inserting })

  abbrev pub forward_skipped : Option M → Bool → Stage M → Outcome M
  forward_skipped none sent s = blocked
  forward_skipped (some m) sent s = running (forward m sent (record s { skipping = none }))

  abbrev pub no_skipping : Option M → Bool
  no_skipping none = true
  no_skipping (some m) = false

module _ {M E : Type 0} (convert : M → Option (List E)) where
  unfoldable pub step : Event M → Stage M → Outcome M
  step (receive m) s = if is_idle s then running (on_entities m (convert m) s) else blocked
  step insert_next s = if s.reading then insert_todo s.todo s else blocked
  step (upserted r sent) s =
      if is_in r s.inserting && s.forwarding then on_state r sent (find r s.state) s else blocked
  step (take_skipped sent) s = if s.forwarding then forward_skipped s.skipping sent s else blocked
  step close_in s = if is_idle s then running (record s { reading = false }) else blocked
  step cancel_reader s =
      if s.reading && no_skipping s.skipping
      then running (record s { reading = false })
      else blocked
  step end_forwarder s = running (record s { forwarding = false })

  unfoldable pub run : List (Event M) → Stage M → Outcome M
  unfolding step
  run [] s = running s
  run (e ∷ es) s = elim (step e s) [
    | running s' ↦ run es s'
    | blocked ↦ blocked
    | panicked ↦ panicked
  ]
