-- ===== src/Dbs/Executor/State.antt =====
-- lib/src/dbs/executor.rs: the state of the executor, and the methods that open and end a transaction.
use surreal_dbservice.Base.{
  ℕ, String, Bool, true, false, Option, none, some, List, str_eq, if◌then◌else◌,
}
use surreal_dbservice.Err.{Error, Result, ok, err, query_cancelled, query_not_executed}
use surreal_dbservice.Ctx.{Context, Flags}
use surreal_dbservice.Kvs.Engine.{Engine}
use surreal_dbservice.Kvs.Cache.{Catalog}
use surreal_dbservice.Kvs.Tx
use surreal_dbservice.Kvs.Tx.{Transaction, Store}
use surreal_dbservice.Dbs.Options
use surreal_dbservice.Dbs.Options.{Options}
use surreal_dbservice.Dbs.Response.{Response}

-- The statements that the loop tells apart. `Stm` is what a statement computes, and `other` stands
-- for the statements that the loop does not look into.
pub data Statement (Stm : Type 0) : Type 0 where
  option_stm : String → Bool → Statement Stm
  begin_stm cancel_stm commit_stm : Statement Stm
  use_stm : Option String → Option String → Statement Stm
  set_stm : String → Stm → Statement Stm
  output_stm other_stm : Stm → Statement Stm

-- What the loop calls: the evaluation of a statement on a transaction, which takes time, and the
-- text functions of the language.
pub record Host (E : Engine) (C : Catalog) : Type 1 where
  pub V : Type 0
  pub Stm : Type 0
  pub store : Store
  -- `Value::None`
  pub none_value : V
  pub writeable : Stm → Bool
  pub timeout : Stm → Option ℕ
  pub display : Statement Stm → String
  pub uppercase : String → String
  pub compute :
      Stm
      → Context V
      → Options
      → Flags
      → ℕ
      → Transaction E C
      → Result V × Transaction E C × ℕ × Flags

module _ {V : Type 0} where
  unfoldable pub buf_cancel : Response V → Response V
  buf_cancel v = record v { result = err query_cancelled }

  abbrev pub not_executed : Result V → Result V
  not_executed (ok _) = err query_not_executed
  not_executed (err e) = err e

  -- `failed` is the executor's `err`
  unfoldable pub buf_commit : Bool → Response V → Response V
  buf_commit failed v = if failed then record v { result = not_executed v.result } else v

module _ {E : Engine} {C : Catalog} (H : Host E C) where
  pub record State : Type 0 where
    pub ctx : Context H.V
    pub opt : Options
    pub err : Bool
    pub txn : Option (Transaction E C)
    pub db : E.Db
    pub now : ℕ
    pub flags : Flags
    pub buf : List (Response H.V)
    pub out : List (Response H.V)

  -- What one round of the loop does: `continue` or its end, `break`, `return Err`, a panic.
  pub data Flow : Type 0 where
    next stop : State → Flow
    fail : Error → State → Flow
    panic : State → Flow

  abbrev pub open_txn : Result (Transaction E C) → State → Bool × State
  open_txn (ok v) s = (true, record s { txn = some v })
  open_txn (err e) s = (false, record s { err = true })

  unfoldable pub begin : Bool → State → Bool × State
  begin write s = elim s.txn [
    | some _ ↦ (false, s)
    | none ↦ open_txn (Tx.transaction E C H.store write s.db) s
  ]

  -- `if ….is_err() { self.err = true; }` and `self.txn = None`
  abbrev pub close_txn : Result (Unit {0}) × Transaction E C × E.Db → State → State
  close_txn (ok _, t, db) s = record s { txn = none; db = db }
  close_txn (err e, t, db) s = record s { txn = none; db = db; err = true }

  abbrev pub commit_open : Option (Transaction E C) → State → State
  commit_open none s = s
  commit_open (some t) s =
      if s.err then close_txn (Tx.cancel t s.db) s else close_txn (Tx.commit t s.db) s

  unfoldable pub commit : Bool → State → State
  commit local s = if local then commit_open s.txn s else s

  abbrev pub cancel_open : Option (Transaction E C) → State → Flow
  cancel_open none s = panic s
  cancel_open (some t) s = next (close_txn (Tx.cancel t s.db) s)

  unfoldable pub cancel : Bool → State → Flow
  cancel local s = if local then cancel_open s.txn s else next s

  -- `Statement::Option`, behind its guards; `none` is the unknown name, which breaks
  unfoldable pub set_option : String → Bool → Options → Option Options
  set_option name what opt =
      let n = H.uppercase name in
      if str_eq n "FIELDS"
      then some (Options.with_fields what opt)
      else if str_eq n "EVENTS"
      then some (Options.with_events what opt)
      else if str_eq n "TABLES"
      then some (Options.with_tables what opt)
      else if str_eq n "IMPORT"
      then some (Options.with_import what opt)
      else if str_eq n "FORCE"
      then some (Options.with_force what opt)
      else if str_eq n "DEBUG"
      then some (Options.with_debug what opt)
      else none
