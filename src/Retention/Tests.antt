-- ===== src/Retention/Tests.antt =====
-- Options with one category.
use icingadb.Prelude.{[], ◌∷◌, true, ◌≡◌, refl, arith}
use icingadb.Retention.{Retention, retention_statements, validate, is_allowed, start}
use icingadb.Retention.Days.{is_run, start-validated}

abbrev comments_30 : Retention
comments_30 = record { history_days = 0; sla_days = 100; options = ("comment", 30) ∷ [] }

start-validated_example : is_run "comment" 30 (start comments_30 retention_statements) ≡ true
unfolding validate is_allowed
start-validated_example =
    start-validated comments_30 retention_statements "comment" 30 refl refl (omega arith)
