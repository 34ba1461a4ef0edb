-- ===== src/ConfigSync/Right.antt =====
-- Which rows are right: the row that is written, or left, for an ID.
use icingadb.Prelude.{
  String, List, Bool, true, false, Option, none, some, is_some, if◌then◌else◌, ◌≡◌, refl, sym, ap,
  ◌∙◌,
}
use icingadb.Prelude.Maps.{StringMap}
use icingadb.Delta.{Entity}
use icingadb.Delta.Spec.{find, find-id, only, changed_pair}
use icingadb.ConfigSync.{Codec}
use icingadb.ConfigSync.Prepared.{IsCodec, served, source, served-IsChecked, source-IsChecked}
use icingadb.ConfigSync.Rows.{row_checksum, Follows, update-desired, unchanged-checksum}

-- Entities with checksums, if the subject has them, which are compared then.
pub record HasChecksums {E : Type 0} (k : Entity E) (w tracked : Bool) : Type 0 where
  pub each : w ≡ true → (e : E) → is_some (k.checksum e) ≡ true
  pub compared : w ≡ true → tracked ≡ true

module _ {E : Type 0} ⦃k : Entity E⦄ where
  -- What one side has only is keyed by its IDs.
  pub only-id : (es others : List E) (i : String) (e : E) → only es others i ≡ some e → k.id e ≡ i
  only-id es others i e h = by_test (is_some (find i others)) h
    where
      by_test : (b : Bool) → (if b then none else find i es) ≡ some e → k.id e ≡ i
      by_test true bad = cc
      by_test false h' = find-id i es e h'

  -- The checksum of a row that is written.
  checksum_of :
      (o : Option E) (c : Option String)
      → is_some o ≡ true
      → ((e : E) → o ≡ some e → k.checksum e ≡ c)
      → row_checksum o ≡ some c
  checksum_of none c bad its = cc
  checksum_of (some e) c there its = ap (λ (x : Option String). some x) (its e refl)

  -- A row that is left as it was, for an entity that is not to be updated.
  pub same-right :
      (w tracked : Bool) (checksums : HasChecksums k w tracked) (a d : E) (redis before : Option E)
      → is_some before ≡ true
      → (w ≡ true → some (k.checksum a) ≡ row_checksum before)
      → (if tracked then changed_pair (some a) (some d) else none) ≡ none
      → Follows w (some a) (some d) none redis before before
  same-right true tracked checksums a d redis before there reads same =
      sym (reads refl)
      ∙ ap (λ (x : Option String). some x)
          (unchanged-checksum tracked a d (checksums.compared refl) (checksums.each refl a)
            (checksums.each refl d) same)
  same-right false tracked checksums a d redis before there reads same = (there, refl)

  module _ {V : Type 0} (codec : Codec E V) (config : String → Option V) (laws : IsCodec k codec)
      (i : String) where
    -- A row that is created.
    pub fresh-right :
        (w : Bool) (m : StringMap E) (d : E) (update redis before : Option E)
        → ((j : String) (e : E) → m j ≡ some e → k.id e ≡ j)
        → m i ≡ some d
        → is_some (source codec config w m i) ≡ true
        → Follows w none (some d) update redis before (source codec config w m i)
    fresh-right true m d update redis before keyed wanted there =
        checksum_of (source codec config true m i) (k.checksum d) there
          (λ e is. (source-IsChecked codec config laws true m keyed i e is).1 refl d wanted)
    fresh-right false m d update redis before keyed wanted there = wanted

    -- A row that is updated.
    pub newer-right :
        (w tracked : Bool) (m : StringMap E) (a d x : E) (before : Option E)
        → m i ≡ some x
        → (if tracked then changed_pair (some a) (some d) else none) ≡ some x
        → is_some (served codec config w m i) ≡ true
        → Follows w
            (some a)
            (some d)
            (some x)
            (served codec config w m i)
            before
            (served codec config w m i)
    newer-right true tracked m a d x before wanted is there =
        checksum_of (served codec config true m i) (k.checksum d) there (λ e is_e.
          (served-IsChecked codec config laws true m i e is_e).1 refl x wanted
          ∙ ap k.checksum (update-desired tracked a d x is))
    newer-right false tracked m a d x before wanted is there = (there, refl)
