-- ===== src/ConfigSync/Tests.antt =====
-- The example of a synchronisation: one host to delete, one to create, one that changed.
use icingadb.Prelude.{
  contains, String, str_eq, eq_iff, List, [], ◌∷◌, true, false, Option, none, some, is_some, ◌≡◌,
  refl, subst, sym, ap, Bool-cases, inl, inr,
}
use icingadb.Prelude.Maps.{StringMap}
use icingadb.Delta.{
  Entity, SyncSubject, Recv, recv_actual, recv_desired, end_actual, end_desired, entities_equal,
}
use icingadb.Delta.Spec.{find, only, IsComparable, sent_actual, sent_desired}
use icingadb.ConfigSync.{Codec, Outside, sync}
use icingadb.ConfigSync.Prepared.{IsCodec, served}
use icingadb.ConfigSync.Rows.{Follows, to_update}
use icingadb.ConfigSync.Synced.{IsServed}
use icingadb.ConfigSync.Followed.{sync-Follows}

record Host : Type 0 where
  name : String
  properties_checksum : String
  display_name : String

instance abbrev host_entity : Entity Host
host_entity = record {
  id = λ h. h.name;
  checksum = λ h. some h.properties_checksum;
  equal = λ h. none;
}

abbrev host_codec : Codec Host String
host_codec = record {
  is_id = λ i. true;
  unmarshal = λ v. some (record { name = ""; properties_checksum = ""; display_name = v });
  set_id = λ i h. record h { name = i };
  set_checksum = λ c h. some (record h { properties_checksum = c });
}

host_codec-IsCodec : IsCodec host_entity host_codec
host_codec-IsCodec = record {
  id_set = λ i h e. refl;
  checksum_set = λ c h h' e. (
    ap (λ (o : Option Host). elim o [ none ↦ h.name | some x ↦ x.name ]) (sym e),
    ap (λ (o : Option Host). elim o [ none ↦ some c | some x ↦ some x.properties_checksum ])
        (sym e),
  );
}

host_IsComparable : IsComparable host_entity
unfolding entities_equal
host_IsComparable a d = elim (Bool-cases (str_eq a.properties_checksum d.properties_checksum)) [
  | inl e ↦ inl (rw e refl)
  | inr e ↦ inr (rw e refl)
]

abbrev host : String → String → Host
host n c = record { name = n; properties_checksum = c; display_name = "" }

abbrev hosts : SyncSubject
hosts = record { entity_equaler = false; with_checksum = true }

abbrev schedule : List (Recv Host)
schedule =
    recv_actual (host "a" "1")
    ∷ recv_desired (host "b" "1")
    ∷ recv_actual (host "c" "2")
    ∷ end_actual
    ∷ recv_desired (host "c" "3")
    ∷ end_desired
    ∷ []

abbrev have : List Host
have = sent_actual true [] schedule

abbrev want : List Host
want = sent_desired true [] schedule

abbrev redis : String → Option String
redis i = some "from Redis"

abbrev outside : Outside
outside = record { stops = none; first = false ∷ true ∷ []; second = true ∷ [] }

-- A statement of every ID, by those that the schedule has.
by_ids :
    (P : String → Type 0)
    → P "a"
    → P "b"
    → P "c"
    → ((i : String) → str_eq "a" i ≡ false → str_eq "b" i ≡ false → str_eq "c" i ≡ false → P i)
    → (i : String) → P i
by_ids P a b c other i = elim (Bool-cases (str_eq "a" i)) [
  | inl e ↦ subst P ((eq_iff "a" i).0 e) a
  | inr no_a ↦ elim (Bool-cases (str_eq "b" i)) [
    | inl e ↦ subst P ((eq_iff "b" i).0 e) b
    | inr no_b ↦ elim (Bool-cases (str_eq "c" i)) [
      | inl e ↦ subst P ((eq_iff "c" i).0 e) c
      | inr no_c ↦ other i no_a no_b no_c
    ]
  ]
]

hosts-IsServed : IsServed host_codec true redis true have want ("b" ∷ []) ("c" ∷ []) ("a" ∷ [])
unfolding entities_equal
hosts-IsServed = record {
  creates = record {
    exact =
        by_ids (λ i. contains i ("b" ∷ []) ≡ is_some (only want have i)) refl refl refl
          (λ i a b c. rw (a, b, c) refl);
    once = (refl, tt);
  };
  updates = record {
    exact =
        by_ids (λ i. contains i ("c" ∷ []) ≡ is_some (to_update true have want i)) refl refl refl
          (λ i a b c. rw (a, b, c) refl);
    once = (refl, tt);
  };
  deletes = record {
    exact =
        by_ids (λ i. contains i ("a" ∷ []) ≡ is_some (only have want i)) refl refl refl
          (λ i a b c. rw (a, b, c) refl);
    once = (refl, tt);
  };
  new_served = (refl, tt);
  updates_served = (refl, tt);
}

sync-Follows_example :
    (table' : StringMap Host) × (sync host_codec outside hosts schedule redis
        ("b" ∷ [])
        ("c" ∷ [])
        ("a" ∷ [])
        (λ i. find i have)
      ≡ some (table', none))
    × ((i : String)
        → Follows true
            (find i have)
            (find i want)
            (to_update true have want i)
            (served host_codec redis true (to_update true have want) i)
            (find i have)
            (table' i))
sync-Follows_example =
    sync-Follows host_codec host_codec-IsCodec host_IsComparable outside
      (record { completes = refl }) hosts (λ h e. refl) schedule
      (record {
        not_cancelled = refl;
        actual_ends = refl;
        desired_ends = refl;
        actual_distinct = (refl, (refl, tt));
        desired_distinct = (refl, (refl, tt));
      })
      redis ("b" ∷ []) ("c" ∷ []) ("a" ∷ []) hosts-IsServed (λ i. find i have)
      (λ i. (refl, λ h. refl))
