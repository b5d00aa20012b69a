-- ===== src/Kvs/Tx/End.antt =====
-- The end of a transaction of lib/src/kvs/tx.rs, and the store behind it.
use surreal_dbservice.Base.{◌≡◌, refl, false, arith}
use surreal_dbservice.Err.{Error, err}
use surreal_dbservice.Kvs.Engine.{Engine, Reply, good, bad, is_good, lift}
use surreal_dbservice.Kvs.Mem
use surreal_dbservice.Kvs.Cache.{Catalog}
use surreal_dbservice.Kvs.Laws.{EndLaws}
use surreal_dbservice.Kvs.Tx.{Transaction, core, cancel, commit}

module _ {E : Engine} (L : EndLaws E) where
  mem_cancel_keeps : (u : Mem.Transaction E) (db : E.Db) → (Mem.cancel u db).2 ≡ db
  unfolding Mem.cancel
  mem_cancel_keeps u db = ground (arith, L.cancel_keeps u.tx db)

  bad_of_lift : (r : Reply (Unit {0})) (e : Error) → lift r ≡ err e → is_good r ≡ false
  unfolding lift
  bad_of_lift (good a) e h = cc
  bad_of_lift (bad f) e h = refl

  mem_failed_commit_keeps :
      (u : Mem.Transaction E) (db : E.Db) (e : Error)
      → (Mem.commit u db).0 ≡ err e
      → (Mem.commit u db).2 ≡ db
  unfolding Mem.commit
  mem_failed_commit_keeps u db e h =
      ground (arith, bad_of_lift (E.commit u.tx db).0 e, L.failed_commit_keeps u.tx db)

module _ {E : Engine} {C : Catalog} (L : EndLaws E) where
  pub cancel_keeps : (t : Transaction E C) (db : E.Db) → (cancel t db).2 ≡ db
  unfolding cancel
  cancel_keeps t db = mem_cancel_keeps L (core t.inner) db

  pub failed_commit_keeps :
      (t : Transaction E C) (db : E.Db) (e : Error) → (commit t db).0 ≡ err e → (commit t db).2 ≡ db
  unfolding commit
  failed_commit_keeps t db e h = mem_failed_commit_keeps L (core t.inner) db e h
