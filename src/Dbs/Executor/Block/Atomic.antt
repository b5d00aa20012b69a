-- ===== src/Dbs/Executor/Block/Atomic.antt =====
-- Blocks of lib/src/dbs/executor.rs from BEGIN to COMMIT or CANCEL: all or nothing.
use surreal_dbservice.Base.{
  ◌≡◌, refl, ap, sym, subst, ◌∙◌, true, false, none, some, List, [], ◌∷◌, ◌++◌,
}
use mathlib.Core.Path.{fun_ext}
use surreal_dbservice.Err.{ok}
use surreal_dbservice.Kvs.Engine.{Engine}
use surreal_dbservice.Kvs.Cache.{Catalog}
use surreal_dbservice.Kvs.Laws.{EndLaws}
use surreal_dbservice.Kvs.Tx
use surreal_dbservice.Kvs.Tx.{Transaction}
use surreal_dbservice.Dbs.Options.{Options}
use surreal_dbservice.Dbs.Response.{Response}
use surreal_dbservice.Dbs.Executor.State.{
  Statement, begin_stm, cancel_stm, commit_stm, Host, State, Flow, next, stop, fail, panic, begin,
}
use surreal_dbservice.Dbs.Executor.Run.{process, step, execute, proceed}
use surreal_dbservice.Dbs.Executor.Block.{AllOk, AllStay, nothing_yet, InBlock}
use surreal_dbservice.Dbs.Executor.Block.Keep.{Keeps, execute-Keeps}
use surreal_dbservice.Dbs.Executor.Block.End.{
  Committed, Cancelled, BlockEnds, step-commit, step-cancel,
}

module _ {E : Engine} {C : Catalog} {H : Host E C} where
  -- the loop over a list is the loop over its first part and then over the second
  proceed_assoc :
      (f g : State H → Flow H) (x : Flow H)
      → proceed (λ s. proceed g (f s)) x ≡ proceed g (proceed f x)
  proceed_assoc f g (next s) = refl
  proceed_assoc f g (stop s) = refl
  proceed_assoc f g (fail e s) = refl
  proceed_assoc f g (panic s) = refl

  execute-append :
      (xs ys : List (Statement H.Stm)) (s : State H)
      → execute (xs ++ ys) s ≡ proceed (execute ys) (execute xs s)
  unfolding execute
  execute-append [] ys s = refl
  execute-append (x ∷ xs) ys s =
      ap (λ f. proceed f (step x s)) (fun_ext (λ s'. execute-append xs ys s'))
      ∙ proceed_assoc (execute xs) (execute ys) (step x s)

  proceed_next : (f : Flow H) → proceed (execute []) f ≡ f
  unfolding execute
  proceed_next (next s) = refl
  proceed_next (stop s) = refl
  proceed_next (fail e s) = refl
  proceed_next (panic s) = refl

  block-Ends :
      (P : State H → Type 0) (opt0 : Options) (t0 : Transaction E C) (db : E.Db)
      (out : List (Response H.V)) (body : List (Statement H.Stm)) (last : Statement H.Stm)
      → ((s : State H) → InBlock opt0 t0 db out body s → BlockEnds P db out (step last s))
      → (f : Flow H) → Keeps opt0 t0 db out body f
      → BlockEnds P db out (proceed (execute (last ∷ [])) f)
  block-Ends P opt0 t0 db out body last k (next s) h =
      unfold execute in subst (BlockEnds P db out) (sym (proceed_next (step last s))) (k s h)
  block-Ends P opt0 t0 db out body last k (stop s) h = h
  block-Ends P opt0 t0 db out body last k (fail e s) h = h
  block-Ends P opt0 t0 db out body last k (panic s) h = h

  -- the state behind a BEGIN that has opened `t`
  abbrev begun : Transaction E C → State H → State H
  begun t s = record s { err = false; txn = some t }

  step-begin :
      (s : State H) (t : Transaction E C)
      → s.txn ≡ none
      → Tx.transaction E C H.store true s.db ≡ ok t
      → step begin_stm s ≡ next (begun t s)
  unfolding step process begin
  step-begin s t e o = rw (e, o) refl

  begun-InBlock :
      (s : State H) (t : Transaction E C) → s.buf ≡ [] → InBlock s.opt t s.db s.out [] (begun t s)
  begun-InBlock s t e = record {
    inside = record { opened = (t, refl); same_db = refl; same_out = refl };
    honest = λ _. subst AllOk (sym e) tt;
    worked = λ _. nothing_yet;
  }

  run_block :
      (P : State H → Type 0) (last : Statement H.Stm) (body : List (Statement H.Stm)) (s : State H)
      → (t : Transaction E C)
      → ((s' : State H)
          → InBlock s.opt t s.db s.out body s'
          → BlockEnds P s.db s.out (step last s'))
      → AllStay body
      → s.txn ≡ none
      → s.buf ≡ []
      → Tx.transaction E C H.store true s.db ≡ ok t
      → BlockEnds P s.db s.out (execute (begin_stm ∷ body ++ last ∷ []) s)
  run_block P last body s t k stay none_open empty o =
      unfold execute in
      rw (step-begin s t none_open o) (
        rw (execute-append body (last ∷ []) (begun t s)) (
          block-Ends P s.opt t s.db s.out body last k (execute body (begun t s))
            (execute-Keeps s.opt t s.db s.out [] body (begun t s) stay (begun-InBlock s t empty))))

  module _ (L : EndLaws E) where
    -- From a state with no open transaction and an empty buffer, where the store opens one, a block
    -- BEGIN … COMMIT of statements that do not end it never panics. If it reaches its COMMIT, either
    -- its responses are all successes, every statement of the block did its work in order, each on
    -- the transaction that the ones before it left, and the store is what the successful commit of
    -- the transaction with all of that work left; or its responses are all errors and the store is
    -- as before. If a statement ends the loop before, the store and the earlier responses are as
    -- before.
    pub block_atomic :
        (body : List (Statement H.Stm)) (s : State H) (t : Transaction E C)
        → AllStay body
        → s.txn ≡ none
        → s.buf ≡ []
        → Tx.transaction E C H.store true s.db ≡ ok t
        → BlockEnds
            (Committed H s.opt t body s.db s.out)
            s.db
            s.out
            (execute (begin_stm ∷ body ++ commit_stm ∷ []) s)
    block_atomic body s t =
        run_block (Committed H s.opt t body s.db s.out) commit_stm body s t
          (step-commit L s.opt t s.db s.out body)

    -- A block BEGIN … CANCEL never panics. If it reaches its CANCEL, the store is as before, and every
    -- response of the block says that it was cancelled; if a statement ends the loop before, the
    -- store and the earlier responses are as before.
    pub block-Cancelled :
        (body : List (Statement H.Stm)) (s : State H) (t : Transaction E C)
        → AllStay body
        → s.txn ≡ none
        → s.buf ≡ []
        → Tx.transaction E C H.store true s.db ≡ ok t
        → BlockEnds
            (Cancelled H s.db s.out)
            s.db
            s.out
            (execute (begin_stm ∷ body ++ cancel_stm ∷ []) s)
    block-Cancelled body s t =
        run_block (Cancelled H s.db s.out) cancel_stm body s t
          (λ s' h. step-cancel L s.db s.out s' h.inside)
