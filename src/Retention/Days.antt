-- ===== src/Retention/Days.antt =====
-- Which retention periods take effect.
use icingadb.Prelude.{
  ℕ, ◌≤◌, String, List, [], ◌∷◌, Bool, true, false, ◌&&◌, ◌||◌, some, ◌≡◌, arith, if◌then◌else◌,
  ltb, ◌==◌, str_eq, eq_iff, inl, inr, Bool-cases, subst, ◌∙◌, ap,
}
use icingadb.Retention.{
  RetentionType, retention_history, retention_sla, RetentionStatement, RetentionOptions,
  option_days, is_history, is_allowed, validate, Retention, or_default, days_for, start,
}

-- A history statement of the category is run with these days.
unfoldable pub is_run : String → ℕ → List (RetentionStatement × ℕ) → Bool
is_run c d [] = false
is_run c d ((s, n) ∷ l) =
    (is_history s.retention_type && (str_eq s.category c && n == d)) || is_run c d l

validate-is_allowed :
    (statements : List RetentionStatement) (options : RetentionOptions) (c : String) (d : ℕ)
    → validate statements options ≡ true
    → option_days c options ≡ some d
    → is_allowed c statements ≡ true
unfolding validate
validate-is_allowed statements [] c d v e = cc
validate-is_allowed statements ((k, n) ∷ l) c d v e = elim (Bool-cases (str_eq k c)) [
  | inl same ↦ subst (λ j. is_allowed j statements ≡ true) ((eq_iff k c).0 same) (ground (arith, v))
  | inr other ↦ validate-is_allowed statements l c d (ground (arith, v)) (ground (arith, e, other))
]

days_for-option :
    (r : Retention) (t : RetentionType) (k c : String) (d : ℕ)
    → is_history t && str_eq k c ≡ true
    → option_days c r.options ≡ some d
    → days_for r t k ≡ d
unfolding days_for
days_for-option r retention_history k c d h e =
    ap (λ j. or_default r.history_days (option_days j r.options)) ((eq_iff k c).0 h)
    ∙ ap (or_default r.history_days) e
days_for-option r retention_sla k c d h e = cc

is_run-later :
    (c : String) (d : ℕ) (b : Bool) (x : RetentionStatement × ℕ) (l : List (RetentionStatement × ℕ))
    → is_run c d l ≡ true
    → is_run c d (if b then l else x ∷ l) ≡ true
unfolding is_run
is_run-later c d true x l h = h
is_run-later c d false (s, n) l h = ground (arith, h)

start-allowed :
    (r : Retention) (l : List RetentionStatement) (c : String) (d : ℕ)
    → is_allowed c l ≡ true
    → option_days c r.options ≡ some d
    → 1 ≤ d
    → is_run c d (start r l) ≡ true
unfolding is_allowed start is_run days_for
start-allowed r [] c d a e p = cc
start-allowed r (s ∷ l) c d a e p =
    elim (Bool-cases (is_history s.retention_type && str_eq s.category c)) [
      | inl here ↦
          let days = days_for-option r s.retention_type s.category c d here e in
          rw days (ground (arith, here, p))
      | inr there ↦
          is_run-later c d (ltb (days_for r s.retention_type s.category) 1)
            (s, days_for r s.retention_type s.category) (start r l)
            (start-allowed r l c d (ground (arith, a, there)) e p)
    ]

-- A history category with a non-zero period in options that are valid is run with that period.
pub start-validated :
    (r : Retention) (statements : List RetentionStatement) (c : String) (d : ℕ)
    → validate statements r.options ≡ true
    → option_days c r.options ≡ some d
    → 1 ≤ d
    → is_run c d (start r statements) ≡ true
start-validated r statements c d v e p =
    start-allowed r statements c d (validate-is_allowed statements r.options c d v e) e p
