-- ===== src/Dbs/Executor/Block/End.antt =====
-- The COMMIT and the CANCEL of lib/src/dbs/executor.rs that end an open block.
use surreal_dbservice.Base.{
  ◌≡◌, refl, ap, sym, subst, ◌∙◌, Bool, true, false, none, some, List, [], ◌∷◌, ◌++◌, map,
  if◌then◌else◌,
}
use mathlib.Core.Path.{subst₂}
use surreal_dbservice.Base.Lists.{All}
use surreal_dbservice.Err.{Result, ok, err, query_cancelled}
use surreal_dbservice.Kvs.Engine.{Engine}
use surreal_dbservice.Kvs.Cache.{Catalog}
use surreal_dbservice.Kvs.Laws.{EndLaws}
use surreal_dbservice.Kvs.Tx
use surreal_dbservice.Kvs.Tx.{Transaction}
use surreal_dbservice.Kvs.Tx.End.{cancel_keeps, failed_commit_keeps}
use surreal_dbservice.Dbs.Options.{Options}
use surreal_dbservice.Dbs.Response.{Response}
use surreal_dbservice.Dbs.Executor.State.{
  Statement, cancel_stm, commit_stm, Host, State, Flow, next, stop, fail, panic, commit, cancel,
  buf_cancel, buf_commit, not_executed, close_txn,
}
use surreal_dbservice.Dbs.Executor.Run.{commit_end, cancel_end, process, step}
use surreal_dbservice.Dbs.Executor.Block.{is_ok, AllOk, AllErr, Worked, Inside, InBlock}

-- Every response says that the transaction was cancelled.
abbrev pub AllCancelled : {V : Type 0} → List (Response V) → Type 0
AllCancelled {V} rs = All (λ (r : Response V). r.result ≡ err query_cancelled) rs

module _ {V : Type 0} where
  not_executed-err : (x : Result V) → is_ok (not_executed x) ≡ false
  not_executed-err (ok v) = refl
  not_executed-err (err e) = refl

  buf_commit-AllErr : (rs : List (Response V)) → AllErr (map (buf_commit true) rs)
  unfolding buf_commit
  buf_commit-AllErr [] = tt
  buf_commit-AllErr (r ∷ rs) = (not_executed-err r.result, buf_commit-AllErr rs)

  buf_commit-AllOk : (rs : List (Response V)) → AllOk rs → AllOk (map (buf_commit false) rs)
  unfolding buf_commit
  buf_commit-AllOk [] h = tt
  buf_commit-AllOk (r ∷ rs) h = (h.0, buf_commit-AllOk rs h.1)

  buf_cancel-AllCancelled : (rs : List (Response V)) → AllCancelled (map buf_cancel rs)
  unfolding buf_cancel
  buf_cancel-AllCancelled [] = tt
  buf_cancel-AllCancelled (r ∷ rs) = (refl, buf_cancel-AllCancelled rs)

module _ {E : Engine} {C : Catalog} (H : Host E C) (opt0 : Options) (t0 : Transaction E C)
    (body : List (Statement H.Stm)) (db : E.Db) where
  -- All: every statement of the block did its work, in order, every response is a success, and the
  -- store is what the successful commit of the transaction with all of that work left. Nothing: every
  -- response is an error, and the store is as before.
  pub data AllOrNothing (rs : List (Response H.V)) (db' : E.Db) : Type 0 where
    all :
        (opt : Options) (t : Transaction E C)
        → Worked H opt0 t0 body opt t
        → (Tx.commit t db).0 ≡ ok tt
        → db' ≡ (Tx.commit t db).2
        → AllOk rs
        → AllOrNothing rs db'
    nothing : db' ≡ db → AllErr rs → AllOrNothing rs db'

  -- No transaction is open any more, and the responses of the block stand behind the earlier ones,
  -- `out`.
  pub record Committed (out : List (Response H.V)) (s : State H) : Type 0 where
    pub closed : s.txn ≡ none
    pub empty : s.buf ≡ []
    pub added : (rs : List (Response H.V)) × (s.out ≡ out ++ rs) × AllOrNothing rs s.db

module _ {E : Engine} {C : Catalog} (H : Host E C) (db : E.Db) (out : List (Response H.V)) where
  -- No transaction is open any more, the store is as before, and the responses of the block say that
  -- it was cancelled.
  pub record Cancelled (s : State H) : Type 0 where
    pub closed : s.txn ≡ none
    pub empty : s.buf ≡ []
    pub same_db : s.db ≡ db
    pub added : (rs : List (Response H.V)) × (s.out ≡ out ++ rs) × AllCancelled rs

module _ {E : Engine} {C : Catalog} {H : Host E C} where
  -- The loop is at the end of the block, in a state with `P`, or a statement of the block has ended
  -- the loop with the store and the responses as they were.
  abbrev pub BlockEnds : (State H → Type 0) → E.Db → List (Response H.V) → Flow H → Type 0
  BlockEnds P db out (next s) = P s
  BlockEnds P db out (stop s) = (s.db ≡ db) × (s.out ≡ out)
  BlockEnds P db out (fail e s) = (s.db ≡ db) × (s.out ≡ out)
  BlockEnds P db out (panic s) = ⊥

module _ {E : Engine} {C : Catalog} {H : Host E C} (L : EndLaws E) (opt0 : Options)
    (t0 : Transaction E C) (body : List (Statement H.Stm)) where
  cancelled-Committed :
      (t : Transaction E C) (s : State H)
      → s.err ≡ true
      → (x : Result (Unit {0}) × Transaction E C × E.Db) → x.2 ≡ s.db
      → Committed H opt0 t0 body s.db s.out (commit_end (close_txn H x s))
  cancelled-Committed t s failed (ok _, t', db') h = record {
    closed = refl;
    empty = refl;
    added = (
      _,
      refl,
      nothing h
          (subst (λ b. AllErr (map (buf_commit b) s.buf)) (sym failed) (buf_commit-AllErr s.buf)),
    );
  }
  cancelled-Committed t s failed (err e, t', db') h = record {
    closed = refl;
    empty = refl;
    added = (_, refl, nothing h (buf_commit-AllErr s.buf));
  }

  fine-Committed :
      (t : Transaction E C) (s : State H)
      → s.err ≡ false
      → AllOk s.buf
      → Worked H opt0 t0 body s.opt t
      → (x : Result (Unit {0}) × Transaction E C × E.Db) → Tx.commit t s.db ≡ x
      → Committed H opt0 t0 body s.db s.out (commit_end (close_txn H x s))
  fine-Committed t s fine good done (ok _, t', db') e = record {
    closed = refl;
    empty = refl;
    added = (
      _,
      refl,
      all s.opt t done (ap (λ y. y.0) e) (sym (ap (λ y. y.2) e))
          (subst (λ b. AllOk (map (buf_commit b) s.buf)) (sym fine) (buf_commit-AllOk s.buf good)),
    );
  }
  fine-Committed t s fine good done (err y, t', db') e = record {
    closed = refl;
    empty = refl;
    added = (
      _,
      refl,
      nothing (sym (ap (λ z. z.2) e) ∙ failed_commit_keeps L t s.db y (ap (λ z. z.0) e))
          (buf_commit-AllErr s.buf),
    );
  }

  -- `commit_end` on either way that the open transaction ends
  end-Committed :
      (t : Transaction E C) (s : State H)
      → (b : Bool) → s.err ≡ b
      → (s.err ≡ false → AllOk s.buf)
      → (s.err ≡ false → Worked H opt0 t0 body s.opt t)
      → Committed H opt0 t0 body s.db s.out (
          commit_end
            (if b then close_txn H (Tx.cancel t s.db) s else close_txn H (Tx.commit t s.db) s))
  end-Committed t s true e h w =
      cancelled-Committed t s e (Tx.cancel t s.db) (cancel_keeps L t s.db)
  end-Committed t s false e h w = fine-Committed t s e (h e) (w e) (Tx.commit t s.db) refl

module _ {E : Engine} {C : Catalog} {H : Host E C} (L : EndLaws E) where
  step_commit-open :
      (s : State H) (t : Transaction E C)
      → s.txn ≡ some t
      → step commit_stm s
        ≡ next (
            commit_end (
              if s.err then close_txn H (Tx.cancel t s.db) s else close_txn H (Tx.commit t s.db) s))
  unfolding step process commit
  step_commit-open s t e = rw e refl

  step_cancel-open :
      (s : State H) (t : Transaction E C)
      → s.txn ≡ some t
      → step cancel_stm s ≡ cancel_end (next (close_txn H (Tx.cancel t s.db) s))
  unfolding step process cancel
  step_cancel-open s t e = rw e refl

  pub step-commit :
      (opt0 : Options) (t0 : Transaction E C) (db : E.Db) (out : List (Response H.V))
      (body : List (Statement H.Stm)) (s : State H)
      → InBlock opt0 t0 db out body s
      → BlockEnds (Committed H opt0 t0 body db out) db out (step commit_stm s)
  step-commit opt0 t0 db out body s h =
      let (t, e) = h.inside.opened in
      rw (step_commit-open s t e) (
        subst₂
          (λ d o. Committed H opt0 t0 body d o (
            commit_end (
              if s.err
              then close_txn H (Tx.cancel t s.db) s
              else close_txn H (Tx.commit t s.db) s)))
          h.inside.same_db h.inside.same_out
          (end-Committed L opt0 t0 body t s s.err refl h.honest h.worked))

  closed-Cancelled :
      (db : E.Db) (out : List (Response H.V)) (s : State H)
      → Inside db out s
      → (x : Result (Unit {0}) × Transaction E C × E.Db) → x.2 ≡ s.db
      → BlockEnds (Cancelled H db out) db out (cancel_end (next (close_txn H x s)))
  closed-Cancelled db out s h (ok _, t', db') e = record {
    closed = refl;
    empty = refl;
    same_db = e ∙ h.same_db;
    added = (_, ap (λ o. o ++ map buf_cancel s.buf) h.same_out, buf_cancel-AllCancelled s.buf);
  }
  closed-Cancelled db out s h (err y, t', db') e = record {
    closed = refl;
    empty = refl;
    same_db = e ∙ h.same_db;
    added = (_, ap (λ o. o ++ map buf_cancel s.buf) h.same_out, buf_cancel-AllCancelled s.buf);
  }

  pub step-cancel :
      (db : E.Db) (out : List (Response H.V)) (s : State H)
      → Inside db out s
      → BlockEnds (Cancelled H db out) db out (step cancel_stm s)
  step-cancel db out s h =
      let (t, e) = h.opened in
      rw (step_cancel-open s t e)
        (closed-Cancelled db out s h (Tx.cancel t s.db) (cancel_keeps L t s.db))
