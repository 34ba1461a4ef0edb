-- ===== src/Delta/Schedule.antt =====
-- What a schedule delivers on its two channels.
use icingadb.Prelude.{List, [], ◌∷◌, Bool, true, false, ◌≡◌, refl}
use icingadb.Delta.{Entity, Recv, recv_actual, recv_desired, end_actual, end_desired, ctx_done}
use icingadb.Delta.Spec.{Distinct, sent_actual, sent_desired}

module _ {E : Type 0} ⦃k : Entity E⦄ where
  pub Distinct-sent_actual :
      (is_open : Bool) (have : List E) (rs : List (Recv E))
      → Distinct (sent_actual is_open have rs)
      → Distinct have
  Distinct-sent_actual o have [] h = h
  Distinct-sent_actual true have (recv_actual a ∷ rs) h =
      (Distinct-sent_actual true (a ∷ have) rs h).1
  Distinct-sent_actual false have (recv_actual a ∷ rs) h = Distinct-sent_actual false have rs h
  Distinct-sent_actual o have (end_actual ∷ rs) h = Distinct-sent_actual false have rs h
  Distinct-sent_actual o have (recv_desired d ∷ rs) h = Distinct-sent_actual o have rs h
  Distinct-sent_actual o have (end_desired ∷ rs) h = Distinct-sent_actual o have rs h
  Distinct-sent_actual o have (ctx_done ∷ rs) h = Distinct-sent_actual o have rs h

  pub Distinct-sent_desired :
      (is_open : Bool) (want : List E) (rs : List (Recv E))
      → Distinct (sent_desired is_open want rs)
      → Distinct want
  Distinct-sent_desired o want [] h = h
  Distinct-sent_desired true want (recv_desired d ∷ rs) h =
      (Distinct-sent_desired true (d ∷ want) rs h).1
  Distinct-sent_desired false want (recv_desired d ∷ rs) h = Distinct-sent_desired false want rs h
  Distinct-sent_desired o want (end_desired ∷ rs) h = Distinct-sent_desired false want rs h
  Distinct-sent_desired o want (recv_actual a ∷ rs) h = Distinct-sent_desired o want rs h
  Distinct-sent_desired o want (end_actual ∷ rs) h = Distinct-sent_desired o want rs h
  Distinct-sent_desired o want (ctx_done ∷ rs) h = Distinct-sent_desired o want rs h

module _ {E : Type 0} where
  pub sent_actual-closed : (have : List E) (rs : List (Recv E)) → sent_actual false have rs ≡ have
  sent_actual-closed have [] = refl
  sent_actual-closed have (recv_actual a ∷ rs) = sent_actual-closed have rs
  sent_actual-closed have (_ ∷ rs) = sent_actual-closed have rs

  pub sent_desired-closed : (want : List E) (rs : List (Recv E)) → sent_desired false want rs ≡ want
  sent_desired-closed want [] = refl
  sent_desired-closed want (recv_desired d ∷ rs) = sent_desired-closed want rs
  sent_desired-closed want (_ ∷ rs) = sent_desired-closed want rs
