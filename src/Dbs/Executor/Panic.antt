-- ===== src/Dbs/Executor/Panic.antt =====
-- When the loop of lib/src/dbs/executor.rs panics, and when it cannot.
pub mod Brackets
use surreal_dbservice.Base.{
  ℕ, String, ◌≡◌, refl, ap, sym, ◌∙◌, subst, Bool, true, false, not, Option, none, some, List, [],
  ◌∷◌, ◌++◌, arith, is_some, Option-cases, inl, inr, if◌then◌else◌,
}
use surreal_dbservice.Err.{Error, Result, ok, err, query_not_executed}
use surreal_dbservice.Kvs.Engine.{Engine}
use surreal_dbservice.Kvs.Cache.{Catalog}
use surreal_dbservice.Kvs.Tx
use surreal_dbservice.Kvs.Tx.{Transaction}
use surreal_dbservice.Dbs.Options.{Options}
use surreal_dbservice.Dbs.Response.{Response}
use surreal_dbservice.Dbs.Executor.State.{
  Statement, option_stm, begin_stm, cancel_stm, commit_stm, use_stm, set_stm, output_stm, other_stm,
  Host, State, Flow, next, stop, fail, panic, begin, commit, cancel, close_txn, open_txn,
  commit_open, cancel_open,
}
use surreal_dbservice.Dbs.Executor.Run.{
  process, reset, step, normal, evaluate, respond, mark, answer, place, compute_on, run_within,
  after_compute, answered, finalise, guarded, option_end, use_end, bound, bind, execute, proceed,
  cancel_end, commit_end,
}

module _ {E : Engine} {C : Catalog} {H : Host E C} where
  -- A CANCEL with no open transaction panics, whatever the state.
  pub cancel_alone_panics : (s : State H) → s.txn ≡ none → step cancel_stm s ≡ panic (reset s)
  unfolding step process cancel
  cancel_alone_panics s e = rw e refl

  -- A statement outside a block panics if the store cannot open a transaction for it.
  pub failed_begin_panics :
      (what : H.Stm) (s : State H) (e : Error)
      → s.txn ≡ none
      → Tx.transaction E C H.store (H.writeable what) s.db ≡ err e
      → (s' : State H) × (step (other_stm what) s ≡ panic s')
  unfolding step process normal begin
  failed_begin_panics what s e none_open o =
      (record s { err = true; txn = none }, rw (none_open, o) refl)

  -- What a round leaves: a transaction is open exactly if `b`, or the loop has ended; no panic.
  abbrev pub Opens : Bool → Flow H → Type 0
  Opens b (next s) = is_some s.txn ≡ b
  Opens b (stop s) = Unit
  Opens b (fail e s) = Unit
  Opens b (panic s) = ⊥

  place-txn :
      (stm : Statement H.Stm) (r : Response H.V) (s : State H) (o : Option (Transaction E C))
      → s.txn ≡ o
      → is_some (place stm r s).txn ≡ is_some o
  place-txn stm r s none e = rw e refl
  place-txn stm r s (some t) e = rw e refl

  pub respond-txn :
      (stm : Statement H.Stm) (start : ℕ) (res : Result H.V) (s : State H)
      → is_some (respond stm start res s).txn ≡ is_some s.txn
  unfolding respond
  respond-txn stm start (ok v) s = place-txn stm _ s s.txn refl
  respond-txn stm start (err e) s = place-txn stm _ (record s { err = true }) s.txn refl

  pub answered-Opens :
      (stm : Statement H.Stm) (start : ℕ) (res : Result H.V) (b : Bool) (f : Flow H)
      → Opens b f
      → Opens b (answered stm start res f)
  answered-Opens stm start res b (next s) h = respond-txn stm start res s ∙ h
  answered-Opens stm start res b (stop s) h = h
  answered-Opens stm start res b (fail e s) h = h
  answered-Opens stm start res b (panic s) h = h

  close-txn :
      (x : Result (Unit {0}) × Transaction E C × E.Db) (s : State H)
      → is_some (close_txn H x s).txn ≡ false
  close-txn (ok _, t, db) s = refl
  close-txn (err e, t, db) s = refl

  if-closed :
      (b : Bool) (x y : State H)
      → is_some x.txn ≡ false
      → is_some y.txn ≡ false
      → is_some (if b then x else y).txn ≡ false
  if-closed true x y h k = h
  if-closed false x y h k = k

  commit_open-txn :
      (o : Option (Transaction E C)) (s : State H)
      → s.txn ≡ o
      → is_some (commit_open H o s).txn ≡ false
  commit_open-txn none s e = ap is_some e
  commit_open-txn (some t) s e = if-closed s.err _ _ (close-txn _ s) (close-txn _ s)

  pub commit-txn : (s : State H) → is_some (commit H true s).txn ≡ false
  unfolding commit
  commit-txn s = commit_open-txn s.txn s refl

  pub cancel_open-Opens :
      (o : Option (Transaction E C)) (s : State H)
      → is_some o ≡ true
      → Opens false (cancel_open H o s)
  cancel_open-Opens none s h = cc
  cancel_open-Opens (some t) s h = close-txn _ s

  -- `loc` is true if the round has opened the transaction itself.
  pub finalise-Opens :
      (loc : Bool) (res : Result H.V) (s : State H)
      → is_some s.txn ≡ true
      → Opens (not loc) (finalise loc res s)
  unfolding commit cancel
  finalise-Opens true (ok v) s h = unfold commit in commit_open-txn s.txn s refl
  finalise-Opens true (err e) s h = cancel_open-Opens s.txn s h
  finalise-Opens false (ok v) s h = h
  finalise-Opens false (err e) s h = h
