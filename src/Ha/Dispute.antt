-- ===== src/Ha/Dispute.antt =====
-- Two nodes that are responsible at the same time: `realize` where another instance is active.
use icingadb.Prelude.{
  ℕ, true, false, none, some, ◌≡◌, ◌≢◌, refl, arith, inl, inr, Option-cases, subst, sym,
}
use icingadb.Ha.{
  Instance, Database, Node, find_other, decide, own_row, write_rows, transaction, conclude,
}
use icingadb.Ha.Rows.{is_active, find_other-none, not-is_active, is_active-upsert}
use icingadb.Ha.Signals.{NodeOk, note_other-responsible}
use icingadb.Ha.Takeover.{is_expired}

decide_active :
    (h : Node) (env now : ℕ) (db : Database) (r : Instance)
    → find_other env h.instance_id db ≡ some r
    → is_expired now r ≡ false
    → decide h now (find_other env h.instance_id db) ≡ (none, true)
unfolding decide
decide_active h env now db r found fresh = rw (found, fresh) refl

-- The node that finds another active instance is not responsible afterwards.
drop-responsible :
    (h : Node) (env now : ℕ) (db : Database) (r : Instance)
    → NodeOk h
    → find_other env h.instance_id db ≡ some r
    → is_expired now r ≡ false
    → (conclude now true (decide h now (find_other env h.instance_id db)) h).responsible ≡ false
unfolding conclude
drop-responsible h env now db r ok found fresh =
    subst (λ d. (conclude now true d h).responsible ≡ false)
      (sym (decide_active h env now db r found fresh)) (note_other-responsible now h ok)

-- Its row still tells the responsibility that it had when the transaction was built.
write-is_active :
    (h : Node) (env endpoint now last : ℕ) (db : Database) (r : Instance)
    → h.responsible ≡ true
    → find_other env h.instance_id db ≡ some r
    → is_expired now r ≡ false
    → is_active env h.instance_id (transaction h env endpoint now last db) ≡ true
unfolding transaction write_rows own_row
write-is_active h env endpoint now last db r e found fresh =
    subst (λ d. is_active env h.instance_id (write_rows h env endpoint last d.0 db) ≡ true)
      (sym (decide_active h env now db r found fresh))
      (is_active-upsert env (own_row h env endpoint last none) db refl e)

-- A responsible node that finds another responsible instance, whose row is not expired, drops its
-- responsibility, but the row that the same transaction has written says that it is responsible: a
-- node `g` of the same environment that runs next finds it, and if that row is not expired either,
-- `g` drops its responsibility as well.
pub dispute-both_drop :
    (env endpoint now last now' : ℕ) (h g : Node) (r : Instance) (db : Database)
    → NodeOk h
    → NodeOk g
    → h.responsible ≡ true
    → h.instance_id ≢ g.instance_id
    → find_other env h.instance_id db ≡ some r
    → is_expired now r ≡ false
    → ((r' : Instance)
        → find_other env g.instance_id (transaction h env endpoint now last db) ≡ some r'
        → is_expired now' r' ≡ false)
    → let db' = transaction h env endpoint now last db in
      (is_active env h.instance_id db' ≡ true)
      × ((conclude now true (decide h now (find_other env h.instance_id db)) h).responsible ≡ false)
      × ((conclude now' true (decide g now' (find_other env g.instance_id db')) g).responsible
          ≡ false)
dispute-both_drop env endpoint now last now' h g r db okh okg e n found fresh fresh' =
    let db' = transaction h env endpoint now last db in
    let active = write-is_active h env endpoint now last db r e found fresh in
    (
      active,
      drop-responsible h env now db r okh found fresh,
      elim (Option-cases (find_other env g.instance_id db')) [
        | inl nobody ↦ ground (
          arith,
          active,
          not-is_active env g.instance_id h.instance_id db'
              (find_other-none env g.instance_id db' nobody) n,
        )
        | inr (r', e') ↦ drop-responsible g env now' db' r' okg e' (fresh' r' e')
      ],
    )
