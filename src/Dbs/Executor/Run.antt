-- ===== src/Dbs/Executor/Run.antt =====
-- lib/src/dbs/executor.rs: one round of the loop, and the loop.
use surreal_dbservice.Base.{
  ℕ, ◌-◌, String, Bool, true, false, Option, none, some, List, [], ◌∷◌, ◌++◌, map, str_eq,
  if◌then◌else◌,
}
use surreal_dbservice.Err.{
  Result, ok, err, query_not_executed, query_timedout, ns_not_allowed, db_not_allowed, ◌>>=◌, ◌>>◌,
}
use surreal_dbservice.Ctx
use surreal_dbservice.Ctx.{Context, Flags}
use surreal_dbservice.Kvs.Engine.{Engine}
use surreal_dbservice.Kvs.Cache.{Catalog}
use surreal_dbservice.Kvs.Tx.{Transaction}
use surreal_dbservice.Dbs.Auth.{Auth, no_auth, kv_auth, ns_auth, db_auth, sc_auth, db_level}
use surreal_dbservice.Dbs.Options
use surreal_dbservice.Dbs.Options.{Options}
use surreal_dbservice.Dbs.Response.{Response}
use surreal_dbservice.Dbs.Executor.State.{
  Statement, option_stm, begin_stm, cancel_stm, commit_stm, use_stm, set_stm, output_stm, other_stm,
  Host, State, Flow, next, stop, fail, panic, begin, commit, cancel, buf_cancel, buf_commit,
  set_option,
}

-- `Statement::Use`: which namespace and which database the authentication may select
abbrev pub may_use_ns : Auth → String → Bool
may_use_ns no_auth ns = true
may_use_ns kv_auth ns = true
may_use_ns (ns_auth v) ns = str_eq v ns
may_use_ns _ ns = false

abbrev pub may_use_db : Auth → String → Bool
may_use_db no_auth db = true
may_use_db kv_auth db = true
may_use_db (ns_auth _) db = true
may_use_db (db_auth _ v) db = str_eq v db
may_use_db (sc_auth _ _ _) db = false

unfoldable pub use_ns : Option String → Options → Result Options
use_ns none opt = ok opt
use_ns (some ns) opt =
    if may_use_ns opt.auth ns then ok (record opt { ns = some ns }) else err (ns_not_allowed ns)

unfoldable pub use_db : Option String → Options → Result Options
use_db none opt = ok opt
use_db (some db) opt =
    if may_use_db opt.auth db then ok (record opt { db = some db }) else err (db_not_allowed db)

-- `RETURN` drops what the transaction has answered so far
abbrev pub buffer :
    {Stm V : Type 0} → Statement Stm → List (Response V) → Response V → List (Response V)
buffer (output_stm _) buf r = r ∷ []
buffer _ buf r = buf ++ r ∷ []

module _ {E : Engine} {C : Catalog} {H : Host E C} where
  -- the end of a round: the response to the statement, and where it goes
  abbrev pub answer : Statement H.Stm → ℕ → Result H.V → State H → Response H.V
  answer stm start res s = record {
    sql = if s.opt.debug then some (H.display stm) else none;
    time = s.now - start;
    result = res;
  }

  abbrev pub mark : Result H.V → State H → State H
  mark (ok _) s = s
  mark (err _) s = record s { err = true }

  abbrev pub place : Statement H.Stm → Response H.V → State H → State H
  place stm r s = elim s.txn [
    | some _ ↦ record s { buf = buffer stm s.buf r }
    | none ↦ record s { out = s.out ++ r ∷ [] }
  ]

  unfoldable pub respond : Statement H.Stm → ℕ → Result H.V → State H → State H
  respond stm start res s = place stm (answer stm start res s) (mark res s)

  -- what `stm.compute` returned, with the transaction, the clock and the flags put back
  abbrev pub computed : Result H.V × Transaction E C × ℕ × Flags → State H → Result H.V × State H
  computed (res, t, now, flags) s = (res, record s { txn = some t; now = now; flags = flags })

  -- `stm.compute` on the open transaction, with its timeout
  abbrev pub timed : Context H.V → Result H.V × State H → Result H.V × State H
  timed ctx (res, s) = (if Ctx.is_timedout ctx s.flags s.now then err query_timedout else res, s)

  abbrev pub run_within : Option ℕ → H.Stm → Transaction E C → State H → Result H.V × State H
  run_within none stm t s = computed (H.compute stm s.ctx s.opt s.flags s.now t) s
  run_within (some timeout) stm t s =
      let (inner, flags) = Ctx.new s.ctx s.flags in
      let ctx = Ctx.add_timeout s.now timeout inner in
      timed ctx (computed (H.compute stm ctx s.opt flags s.now t) s)

  unfoldable pub compute_on : H.Stm → Transaction E C → State H → Result H.V × State H
  compute_on stm t s = run_within (H.timeout stm) stm t s

  -- `Ok(_) => self.commit(loc)`, `Err(_) => self.cancel(loc)`
  abbrev pub finalise : Bool → Result H.V → State H → Flow H
  finalise loc (ok _) s = next (commit H loc s)
  finalise loc (err _) s = cancel H loc s

  abbrev pub answered : Statement H.Stm → ℕ → Result H.V → Flow H → Flow H
  answered stm start res (next s) = next (respond stm start res s)
  answered stm start res f = f

  abbrev pub after_compute : Statement H.Stm → ℕ → Bool → Result H.V × State H → Flow H
  after_compute stm start loc (res, s) = answered stm start res (finalise loc res s)

  -- `self.txn()` panics where no transaction is open
  abbrev pub evaluate_on :
      Option (Transaction E C) → Statement H.Stm → H.Stm → ℕ → Bool → State H → Flow H
  evaluate_on none stm what start loc s = panic s
  evaluate_on (some t) stm what start loc s = after_compute stm start loc (compute_on what t s)

  abbrev pub evaluate : Statement H.Stm → H.Stm → ℕ → Bool × State H → Flow H
  evaluate stm what start (loc, s) = evaluate_on s.txn stm what start loc s

  unfoldable pub normal : Statement H.Stm → H.Stm → State H → Flow H
  normal stm what s =
      if s.err
      then next (respond stm s.now (err query_not_executed) s)
      else evaluate stm what s.now (begin H (H.writeable what) s)

  abbrev pub bound : Statement H.Stm → String → ℕ → Bool → Result H.V × State H → Flow H
  bound stm name start loc (ok val, s) =
      answered stm start (ok H.none_value)
        (cancel H loc (record s { ctx = Ctx.add_value name val s.ctx }))
  bound stm name start loc (err _, s) = stop s

  abbrev pub bind_on :
      Option (Transaction E C) → Statement H.Stm → String → H.Stm → ℕ → Bool → State H → Flow H
  bind_on none stm name what start loc s = panic s
  bind_on (some t) stm name what start loc s =
      bound stm name start loc (computed (H.compute what s.ctx s.opt s.flags s.now t) s)

  abbrev pub bind : Statement H.Stm → String → H.Stm → ℕ → Bool × State H → Flow H
  bind stm name what start (loc, s) = bind_on s.txn stm name what start loc s

  abbrev pub use_end : Statement H.Stm → Result Options → State H → Flow H
  use_end stm (ok opt) s =
      let s' : State H = record s { opt = opt } in next (respond stm s.now (ok H.none_value) s')
  use_end stm (err e) s = fail e s

  abbrev pub option_end : Option Options → State H → Flow H
  option_end none s = stop s
  option_end (some opt) s = next (record s { opt = opt })

  abbrev pub guarded : Result (Unit {0}) → State H → Flow H → Flow H
  guarded (ok _) s f = f
  guarded (err e) s f = fail e s

  abbrev pub cancel_end : Flow H → Flow H
  cancel_end (next s) =
      next (record s { out = s.out ++ map buf_cancel s.buf; buf = []; txn = none })
  cancel_end f = f

  abbrev pub commit_end : State H → State H
  commit_end s = record s { out = s.out ++ map (buf_commit s.err) s.buf; buf = []; txn = none }

  -- the `match stm`
  unfoldable pub process : Statement H.Stm → State H → Flow H
  process (option_stm name what) s =
      guarded (Options.needs s.opt db_level >> Options.check s.opt db_level) s
        (option_end (set_option H name what s.opt) s)
  process begin_stm s = next (begin H true s).1
  process cancel_stm s = cancel_end (cancel H true s)
  process commit_stm s = next (commit_end (commit H true s))
  process (use_stm ns db) s = use_end (use_stm ns db) (use_ns ns s.opt >>= use_db db) s
  process (set_stm name what) s =
      bind (set_stm name what) name what s.now (begin H (H.writeable what) s)
  process (output_stm what) s = normal (output_stm what) what s
  process (other_stm what) s = normal (other_stm what) what s

  -- `if self.txn.is_none() { self.err = false; }`
  abbrev pub reset : State H → State H
  reset s = elim s.txn [ some _ ↦ s | none ↦ record s { err = false } ]

  unfoldable pub step : Statement H.Stm → State H → Flow H
  step stm s = process stm (reset s)

  abbrev pub proceed : (State H → Flow H) → Flow H → Flow H
  proceed rest (next s) = rest s
  proceed rest f = f

  -- The loop: `next` is the state behind the last statement, where the responses are `out`.
  unfoldable pub execute : List (Statement H.Stm) → State H → Flow H
  execute [] s = next s
  execute (stm ∷ rest) s = proceed (execute rest) (step stm s)
