-- ===== src/Migration/States/Bounds.antt =====
-- What the entries that the states are converted to have.
use icingadb.Prelude.{
  ℕ, ◌≤◌, String, str_eq, eq_iff, List, [], ◌∷◌, All, All-map, Option, none, some, ◌==◌, ltb, ◌≡◌,
  ◌⊎◌, inl, inr, refl, arith, Bool-cases, ap, ◌∙◌, sym, subst, Bool, true, false, if◌then◌else◌,
}
use icingadb.Migration.{Hash, object_type, Has, convert_time}
use icingadb.Migration.Tables.{Has-append, Has-appended, All-appended, All-appended_if}
use icingadb.Migration.States.{
  StateRow, StateHistory, HistoryState, SlaHistoryState, StateStages, convert_state_type,
  state_upper_bound, clamp, hard_state_of, state_id, add_state, on_cached, on_time, on_row,
  convert_rows, no_stages, cached_by_id, last_id, convert_state_rows,
}

-- The states of Icinga: a host is up or down, a service is OK, warning, critical or unknown, and either may be
-- pending.
abbrev pub IsStateOf : String → ℕ → Type 0
IsStateOf typ v =
    (v ≡ 99)
    ⊎ (((typ ≡ "host") × ((v ≡ 0) ⊎ (v ≡ 1)))
        ⊎ ((typ ≡ "service") × ((v ≡ 0) ⊎ ((v ≡ 1) ⊎ ((v ≡ 2) ⊎ (v ≡ 3))))))

abbrev pub HasStates : StateHistory → Type 0
HasStates h =
    IsStateOf h.meta.object_type h.soft_state
    × IsStateOf h.meta.object_type h.hard_state
    × IsStateOf h.meta.object_type h.previous_soft_state

abbrev pub history_id : StateHistory → String
history_id h = h.id

-- The states are in their bounds, and what refers to an entry of the first stage finds it there.
pub record WellFormed (out : StateStages) : Type 0 where
  pub states : All HasStates out.state_history
  pub history : All (λ h. Has history_id h.state_history_id out.state_history) out.all_history
  pub sla : All (λ s. Has history_id s.id out.state_history × (s.state_type ≡ "hard")) out.sla

clamp-within : (b v : ℕ) → (clamp b v ≤ b) ⊎ (clamp b v ≡ 99)
clamp-within b v = elim (Bool-cases (ltb b v)) [
  | inr low ↦ inl (ground (arith, low))
  | inl high ↦ elim (Bool-cases (v == 99)) [
    | inl pending ↦ inr (ground (arith, high, pending))
    | inr other ↦ inl (ground (arith, high, other))
  ]
]

up_to_1 : (v : ℕ) → v ≤ 1 → (v ≡ 0) ⊎ (v ≡ 1)
up_to_1 v le = elim (Bool-cases (v == 0)) [
  | inl e ↦ inl (ground (arith, e))
  | inr e ↦ inr (ground (arith, e, le))
]

up_to_3 : (v : ℕ) → v ≤ 3 → (v ≡ 0) ⊎ ((v ≡ 1) ⊎ ((v ≡ 2) ⊎ (v ≡ 3)))
up_to_3 v le = elim (Bool-cases (ltb 1 v)) [
  | inr low ↦ elim (up_to_1 v (ground (arith, low))) [ inl e ↦ inl e | inr e ↦ inr (inl e) ]
  | inl high ↦ elim (Bool-cases (v == 2)) [
    | inl e ↦ inr (inr (inl (ground (arith, e))))
    | inr e ↦ inr (inr (inr (ground (arith, e, high, le))))
  ]
]

-- The bound that the code has for a type is that of the type's states.
clamp-IsStateOf :
    (typ : String) (b v : ℕ) → state_upper_bound typ ≡ some b → IsStateOf typ (clamp b v)
clamp-IsStateOf typ b v e = elim (clamp-within b v) [
  | inr pending ↦ inl pending
  | inl le ↦ elim (Bool-cases (str_eq typ "host")) [
    | inl host ↦
        let is_1 : some 1 ≡ some b =
          sym (ap (λ t. if t then some 1 else if str_eq typ "service" then some 3 else none) host)
          ∙ e in
        let is_bound : 1 ≡ b = ap (λ (o : Option ℕ). elim o [ none ↦ 1 | some x ↦ x ]) is_1 in
        inr (
          inl (
            (eq_iff typ "host").0 host,
            up_to_1 (clamp b v) (subst (λ x. clamp b v ≤ x) (sym is_bound) le),
          ))
    | inr no_host ↦
        let rest : (if str_eq typ "service" then some 3 else none) ≡ some b =
          sym
            (ap (λ t. if t then some 1 else if str_eq typ "service" then some 3 else none) no_host)
          ∙ e in
        service_state le (str_eq typ "service") refl rest
  ]
]
  where
    service_state :
        clamp b v ≤ b
        → (t : Bool) → str_eq typ "service" ≡ t
        → (if t then some 3 else none) ≡ some b
        → IsStateOf typ (clamp b v)
    service_state le false is_no bad = cc
    service_state le true is_service is_3 =
        let is_bound : 3 ≡ b = ap (λ (o : Option ℕ). elim o [ none ↦ 3 | some x ↦ x ]) is_3 in
        inr (
          inr (
            (eq_iff typ "service").0 is_service,
            up_to_3 (clamp b v) (subst (λ x. clamp b v ≤ x) (sym is_bound) le),
          ))

hard-IsStateOf :
    (typ t : String) (soft last : ℕ)
    → IsStateOf typ soft
    → IsStateOf typ last
    → IsStateOf typ (hard_state_of t soft last)
hard-IsStateOf typ t soft last s l = elim (Bool-cases (str_eq t "hard")) [
  | inl e ↦ rw e s
  | inr e ↦ rw e l
]

add_state-WellFormed :
    (hash : Hash) (env : String) (r : StateRow) (time b : ℕ) (typ : String) (previous : ℕ)
    (out : StateStages)
    → state_upper_bound (object_type r.objecttype_id) ≡ some b
    → WellFormed out
    → WellFormed (add_state hash env r time b typ previous out)
add_state-WellFormed hash env r time b typ previous out bound w =
    let in_type = object_type r.objecttype_id in
    let soft = clamp-IsStateOf in_type b r.state bound in
    let out' = add_state hash env r time b typ previous out in
    let id = state_id hash env r (convert_time time r.state_time_usec) in
    let there : Has history_id id out'.state_history =
      Has-appended history_id id out.state_history _ (inl refl) in
    record {
      states = All-appended HasStates out.state_history _ w.states (
        soft,
        hard-IsStateOf in_type typ _ _ soft (clamp-IsStateOf in_type b r.last_hard_state bound),
        clamp-IsStateOf in_type b r.last_state bound,
      );
      history =
          All-appended (λ (h : HistoryState). Has history_id h.state_history_id out'.state_history)
            out.all_history _
            (All-map out.all_history
              (λ h there. Has-append history_id h.state_history_id out.state_history _ there)
              w.history)
            there;
      sla =
          All-appended_if
            (λ (s : SlaHistoryState).
              Has history_id s.id out'.state_history × (s.state_type ≡ "hard"))
            (str_eq typ "hard") out.sla _
            (All-map out.sla (λ s h. (Has-append history_id s.id out.state_history _ h.0, h.1))
              w.sla)
            (λ hard. ((there, (eq_iff typ "hard").0 hard), tt));
    }

-- The row's object and state types are ones that the IDO has.
abbrev pub IsKnown : StateRow → Type 0
IsKnown r =
    ((r.objecttype_id ≡ 1) ⊎ (r.objecttype_id ≡ 2)) × ((r.state_type ≡ 0) ⊎ (r.state_type ≡ 1))

abbrev Converted : Option StateStages → Type 0
Converted o = (out : StateStages) × (o ≡ some out) × WellFormed out

known_bound : (n : ℕ) → (n ≡ 1) ⊎ (n ≡ 2) → (b : ℕ) × (state_upper_bound (object_type n) ≡ some b)
known_bound n (inl e) = (1, rw e refl)
known_bound n (inr e) = (3, rw e refl)

known_type : (n : ℕ) → (n ≡ 0) ⊎ (n ≡ 1) → (t : String) × (convert_state_type n ≡ some t)
known_type n (inl e) = ("soft", rw e refl)
known_type n (inr e) = ("hard", rw e refl)

on_row-Converted :
    (hash : Hash) (env : String) (cached : ℕ → Option ℕ) (r : StateRow) (out : StateStages)
    → IsKnown r
    → WellFormed out
    → Converted (on_row hash env cached r out)
on_row-Converted hash env cached r out known w = on_time_of r.state_time
  where
    out' : StateStages
    out' = record out { checkpoint = some r.id }

    on_cached_of : (time : ℕ) (o : Option ℕ) → Converted (on_cached hash env r time o out')
    on_cached_of time none =
        (out', refl, record { states = w.states; history = w.history; sla = w.sla })
    on_cached_of time (some previous) =
        let bound = known_bound r.objecttype_id known.0 in
        let typ = known_type r.state_type known.1 in
        (
          add_state hash env r time bound.0 typ.0 previous out',
          rw (bound.1, typ.1) refl,
          add_state-WellFormed hash env r time bound.0 typ.0 previous out' bound.1
              (record { states = w.states; history = w.history; sla = w.sla }),
        )

    on_time_of : (o : Option ℕ) → Converted (on_time hash env cached r o out')
    on_time_of none = (out', refl, record { states = w.states; history = w.history; sla = w.sla })
    on_time_of (some time) = on_cached_of time (cached r.id)

convert_rows-Converted :
    (hash : Hash) (env : String) (cached : ℕ → Option ℕ) (rs : List StateRow) (out : StateStages)
    → All IsKnown rs
    → WellFormed out
    → Converted (convert_rows hash env cached rs out)
unfolding convert_rows
convert_rows-Converted hash env cached [] out known w = (out, refl, w)
convert_rows-Converted hash env cached (r ∷ rs) out known w =
    let (out', e, w') = on_row-Converted hash env cached r out known.0 w in
    let (final, e', w'') = convert_rows-Converted hash env cached rs out' known.1 w' in
    (
      final,
      ap
            (λ (o : Option StateStages). elim o [
              | none ↦ none
              | some out' ↦ convert_rows hash env cached rs out'
            ])
            e
          ∙ e',
      w'',
    )

-- Rows of known types are converted without a panic; every soft, hard and previous soft state that is
-- written is pending, or up or down for a host, or OK, warning, critical or unknown for a service; and every entry of the history, and of the SLA's,
-- refers to an entry of the first stage, the latter being of a hard state.
pub convert_state_rows-WellFormed :
    (hash : Hash) (env : String) (select_cache : ℕ → ℕ → List (ℕ × ℕ)) (rows : List StateRow)
    → All IsKnown rows
    → (out : StateStages) × (convert_state_rows hash env select_cache rows ≡ some out)
      × WellFormed out
unfolding convert_state_rows
convert_state_rows-WellFormed hash env select_cache [] known =
    (no_stages, refl, record { states = tt; history = tt; sla = tt })
convert_state_rows-WellFormed hash env select_cache (r ∷ rs) known =
    convert_rows-Converted hash env (cached_by_id (select_cache r.id (last_id r rs))) (r ∷ rs)
      no_stages known (record { states = tt; history = tt; sla = tt })
