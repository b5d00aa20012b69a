-- ===== src/Kvs/Mem/Guards.antt =====
-- The guards of lib/src/kvs/mem/mod.rs over all of its operations at once.
use surreal_dbservice.Base.{ℕ, Bool, true, false, ◌≡◌, Option, arith}
use surreal_dbservice.Err.{Error, Result, ok, err, tx_finished, tx_readonly}
use surreal_dbservice.Kvs.Engine.{Engine, Key, Val}
use surreal_dbservice.Kvs.Mem.{Transaction, exi, get, set, put, putc, del, delc, scan}

-- A call of one of the eight operations on keys.
pub data Call : Type 0 where
  call_exi call_get : Key → Call
  call_set call_put : Key → Val → Call
  call_putc : Key → Val → Option Val → Call
  call_del : Key → Call
  call_delc : Key → Option Val → Call
  call_scan : Key → Key → ℕ → Call

abbrev pub is_write : Call → Bool
is_write (call_exi _) = false
is_write (call_get _) = false
is_write (call_scan _ _ _) = false
is_write _ = true

-- What a call left: its error, if any, and the transaction.
abbrev pub failure : {A : Type 0} → Result A → Option Error
failure (ok _) = Option.none
failure (err e) = Option.some e

module _ {E : Engine} where
  abbrev outcome : {A : Type 0} → Result A × Transaction E → Option Error × Transaction E
  outcome (r, t) = (failure r, t)

  pub run : Call → Transaction E → Option Error × Transaction E
  run (call_exi k) t = outcome (exi k t)
  run (call_get k) t = outcome (get k t)
  run (call_set k v) t = outcome (set k v t)
  run (call_put k v) t = outcome (put k v t)
  run (call_putc k v c) t = outcome (putc k v c t)
  run (call_del k) t = outcome (del k t)
  run (call_delc k c) t = outcome (delc k c t)
  run (call_scan a b n) t = outcome (scan a b n t)

  -- On a finished transaction every operation fails with TxFinished and changes nothing.
  pub run-finished :
      (c : Call) (t : Transaction E) → t.finished ≡ true → run c t ≡ (Option.some tx_finished, t)
  unfolding run exi get set put putc del delc scan
  run-finished c t h = ground arith

  -- On an open read-only transaction every write fails with TxReadonly and changes nothing.
  pub run-readonly :
      (c : Call) (t : Transaction E)
      → t.finished ≡ false
      → t.rw ≡ false
      → is_write c ≡ true
      → run c t ≡ (Option.some tx_readonly, t)
  unfolding run exi get set put putc del delc scan
  run-readonly c t h r w = ground arith
