-- ===== src/Kvs/Mem/Lifecycle.antt =====
-- How a transaction of lib/src/kvs/mem/mod.rs ends.
use surreal_dbservice.Base.{true, false, ◌≡◌, arith}
use surreal_dbservice.Err.{ok, err, tx_finished, tx_readonly}
use surreal_dbservice.Kvs.Engine.{Engine}
use surreal_dbservice.Kvs.Mem.{Transaction, transaction, cancel, commit}

module _ {E : Engine} where
  -- Whatever a commit or a cancellation of a writable transaction returned, the
  -- transaction is finished: a second commit or cancel fails with TxFinished, changes nothing and
  -- does not reach the store.
  pub ends_once :
      (t : Transaction E) (db : E.Db)
      → t.rw ≡ true
      → let (r, t1, db1) = commit t db in
        let (s, t2, db2) = cancel t db in
        (commit t1 db1 ≡ (err tx_finished, t1, db1))
        × (cancel t1 db1 ≡ (err tx_finished, t1, db1))
        × (commit t2 db2 ≡ (err tx_finished, t2, db2))
        × (cancel t2 db2 ≡ (err tx_finished, t2, db2))
  unfolding commit cancel
  ends_once t db h = ground arith

  -- Committing a read-only transaction fails, leaves it open and does not reach the store; it can
  -- still be cancelled.
  pub commit_readonly :
      (db db' : E.Db) (t : Transaction E)
      → transaction E false db ≡ ok t
      → (commit t db' ≡ (err tx_readonly, t, db')) × ((cancel t db').1.finished ≡ true)
  unfolding transaction commit cancel
  commit_readonly db db' t h = ground arith
