-- ===== src/Dbs/Executor/Single.antt =====
-- Statements of lib/src/dbs/executor.rs outside a block, which run in a transaction of their own.
use surreal_dbservice.Base.{
  ℕ, ◌≡◌, refl, ap, ◌∙◌, subst, Bool, true, false, Option, none, some, some-injective, [], ◌∷◌,
  ◌++◌, ◌⊎◌, inl, inr, if◌then◌else◌, if_false,
}
use surreal_dbservice.Err.{Error, Result, ok, err, query_timedout}
use surreal_dbservice.Ctx.{Context, Flags}
use surreal_dbservice.Kvs.Engine.{Engine}
use surreal_dbservice.Kvs.Cache.{Catalog}
use surreal_dbservice.Kvs.Laws.{EndLaws}
use surreal_dbservice.Kvs.Tx
use surreal_dbservice.Kvs.Tx.{Transaction}
use surreal_dbservice.Kvs.Tx.End.{cancel_keeps, failed_commit_keeps}
use surreal_dbservice.Dbs.Response.{Response}
use surreal_dbservice.Dbs.Executor.State.{
  Statement, option_stm, begin_stm, cancel_stm, commit_stm, use_stm, set_stm, output_stm, other_stm,
  Host, State, Flow, next, stop, fail, panic, begin, commit, cancel, close_txn,
}
use surreal_dbservice.Dbs.Executor.Run.{
  process, step, normal, respond, compute_on, run_within, after_compute,
}

-- What a statement evaluates that settles in its own round: RETURN, and every statement that the loop
-- does not look into.
abbrev pub settles : {Stm : Type 0} → Statement Stm → Option Stm
settles (output_stm what) = some what
settles (other_stm what) = some what
settles _ = none

timed_either :
    {V : Type 0} (b : Bool) (r : Result V)
    → let res = if b then err query_timedout else r in (res ≡ r) ⊎ (res ≡ err query_timedout)
timed_either true r = inr refl
timed_either false r = inl refl

module _ {E : Engine} {C : Catalog} {H : Host E C} where
  -- the state in which the statement is evaluated
  abbrev pub alone : Transaction E C → State H → State H
  alone t s = record s { err = false; txn = some t }

  -- How a statement with a transaction of its own ends: with one response, and no open transaction.
  pub record Answered (s s' : State H) (res : Result H.V) (db' : E.Db) : Type 0 where
    pub closed : s'.txn ≡ none
    pub same_buf : s'.buf ≡ s.buf
    pub same_db : s'.db ≡ db'
    pub added : (r : Response H.V) × (s'.out ≡ s.out ++ r ∷ []) × (r.result ≡ res)

  -- What the round does behind the evaluation.
  abbrev pub Rounds : State H → Transaction E C → Result H.V → Flow H → Type 0
  Rounds s t (ok v) (next s') = Answered s s' (ok v) (Tx.commit t s.db).2
  Rounds s t (err e) (next s') = Answered s s' (err e) (Tx.cancel t s.db).2
  Rounds s t res f = ⊥

  abbrev settle :
      (stm : Statement H.Stm) (start : ℕ) (res : Result H.V)
      (x : Result (Unit {0}) × Transaction E C × E.Db)
      → (s : State H) → State H
  settle stm start res x s = respond stm start res (close_txn H x s)

  settle-Answered :
      (stm : Statement H.Stm) (start : ℕ) (res : Result H.V)
      (x : Result (Unit {0}) × Transaction E C × E.Db)
      → (s : State H) → Answered s (settle stm start res x s) res x.2
  unfolding respond
  settle-Answered stm start (ok v) (ok _, t, db) s = record {
    closed = refl;
    same_buf = refl;
    same_db = refl;
    added = (_, refl, refl);
  }
  settle-Answered stm start (ok v) (err e, t, db) s = record {
    closed = refl;
    same_buf = refl;
    same_db = refl;
    added = (_, refl, refl);
  }
  settle-Answered stm start (err e) (ok _, t, db) s = record {
    closed = refl;
    same_buf = refl;
    same_db = refl;
    added = (_, refl, refl);
  }
  settle-Answered stm start (err e) (err y, t, db) s = record {
    closed = refl;
    same_buf = refl;
    same_db = refl;
    added = (_, refl, refl);
  }

  -- what the evaluation leaves alone
  run_within-frame :
      (o : Option ℕ) (what : H.Stm) (t : Transaction E C) (s : State H)
      → let s' = (run_within o what t s).1 in
        (s'.db ≡ s.db) × (s'.out ≡ s.out) × (s'.buf ≡ s.buf) × (s'.err ≡ s.err)
  run_within-frame none what t s = (refl, refl, refl, refl)
  run_within-frame (some d) what t s = (refl, refl, refl, refl)

  Answered-frame :
      (s s1 s' : State H) (res : Result H.V) (db : E.Db)
      → s1.out ≡ s.out
      → s1.buf ≡ s.buf
      → Answered s1 s' res db
      → Answered s s' res db
  Answered-frame s s1 s' res db o b a =
      let (r, e, q) = a.added in
      record {
        closed = a.closed;
        same_buf = a.same_buf ∙ b;
        same_db = a.same_db;
        added = (r, e ∙ ap (λ xs. xs ++ r ∷ []) o, q);
      }

  commit-alone :
      (s : State H) (t : Transaction E C)
      → s.txn ≡ some t
      → s.err ≡ false
      → commit H true s ≡ close_txn H (Tx.commit t s.db) s
  unfolding commit
  commit-alone s t e f = rw e (if_false s.err _ _ f)

  cancel-alone :
      (s : State H) (t : Transaction E C)
      → s.txn ≡ some t
      → cancel H true s ≡ next (close_txn H (Tx.cancel t s.db) s)
  unfolding cancel
  cancel-alone s t e = rw e refl

  after_compute-Rounds :
      (stm : Statement H.Stm) (start : ℕ) (s s1 : State H) (t : Transaction E C) (res : Result H.V)
      → s1.txn ≡ some t
      → s1.err ≡ false
      → s1.db ≡ s.db
      → s1.out ≡ s.out
      → s1.buf ≡ s.buf
      → Rounds s t res (after_compute stm start true (res, s1))
  after_compute-Rounds stm start s s1 t (ok v) e f d o b = rw (commit-alone s1 t e f) (
      subst
        (λ y. Answered s (settle stm start (ok v) (Tx.commit t s1.db) s1) (ok v) (Tx.commit t y).2)
        d
        (Answered-frame s s1 _ (ok v) _ o b
          (settle-Answered stm start (ok v) (Tx.commit t s1.db) s1)))
  after_compute-Rounds stm start s s1 t (err y) e f d o b = rw (cancel-alone s1 t e) (
      subst
        (λ z.
          Answered s (settle stm start (err y) (Tx.cancel t s1.db) s1) (err y) (Tx.cancel t z).2)
        d
        (Answered-frame s s1 _ (err y) _ o b
          (settle-Answered stm start (err y) (Tx.cancel t s1.db) s1)))

  -- `res` and `t'` are what the evaluation of `what` on `t` came to, at the options and the time of
  -- `s`: without a timeout in its context, and with one in a context that is bounded by it, where the
  -- time can also have run out.
  abbrev pub Evaluates :
      Option ℕ → H.Stm → Transaction E C → State H → Result H.V → Transaction E C → Type 0
  Evaluates none what t s res t' =
      (res ≡ (H.compute what s.ctx s.opt s.flags s.now t).0)
      × (t' ≡ (H.compute what s.ctx s.opt s.flags s.now t).1)
  Evaluates (some d) what t s res t' =
      (ctx : Context H.V) × (flags : Flags) × ((res ≡ (H.compute what ctx s.opt flags s.now t).0)
        ⊎ (res ≡ err query_timedout))
      × (t' ≡ (H.compute what ctx s.opt flags s.now t).1)

  run_within-Evaluates :
      (o : Option ℕ) (what : H.Stm) (t : Transaction E C) (s : State H)
      → let (res, s1) = run_within o what t (alone t s) in
        (t' : Transaction E C) × (s1.txn ≡ some t') × Evaluates o what t s res t'
  run_within-Evaluates none what t s = (_, refl, (refl, refl))
  run_within-Evaluates (some d) what t s = (_, refl, (_, _, timed_either _ _, refl))

  step-alone :
      (stm : Statement H.Stm) (what : H.Stm) (s : State H) (t : Transaction E C)
      → settles stm ≡ some what
      → s.txn ≡ none
      → Tx.transaction E C H.store (H.writeable what) s.db ≡ ok t
      → step stm s ≡ after_compute stm s.now true (compute_on what t (alone t s))
  unfolding step process normal begin
  step-alone (output_stm x) what s t k e o = rw (some-injective _ _ k, e, o) refl
  step-alone (other_stm x) what s t k e o = rw (some-injective _ _ k, e, o) refl
  step-alone (option_stm n w) what s t k e o = cc
  step-alone begin_stm what s t k e o = cc
  step-alone cancel_stm what s t k e o = cc
  step-alone commit_stm what s t k e o = cc
  step-alone (use_stm n d) what s t k e o = cc
  step-alone (set_stm n w) what s t k e o = cc

  settled :
      (stm : Statement H.Stm) (what : H.Stm) (s : State H) (t : Transaction E C)
      → settles stm ≡ some what
      → s.txn ≡ none
      → Tx.transaction E C H.store (H.writeable what) s.db ≡ ok t
      → (t' : Transaction E C) × ((compute_on what t (alone t s)).1.txn ≡ some t')
        × Evaluates (H.timeout what) what t s (compute_on what t (alone t s)).0 t'
        × Rounds s t' (compute_on what t (alone t s)).0 (step stm s)
  unfolding compute_on
  settled stm what s t k e o =
      let (res, s1) = run_within (H.timeout what) what t (alone t s) in
      let (t', held, ran) = run_within-Evaluates (H.timeout what) what t s in
      let (d, out_, buf_, fine) = run_within-frame (H.timeout what) what t (alone t s) in
      (
        t',
        held,
        ran,
        rw (step-alone stm what s t k e o)
            (after_compute-Rounds stm s.now s s1 t' res held fine d out_ buf_),
      )

  -- A RETURN, or a statement that the loop does not look into (so not LET, USE, OPTION, BEGIN, COMMIT
  -- or CANCEL), that runs outside a block, where the store opens a transaction, is evaluated on that
  -- transaction and answers with the result of the evaluation, or with the error of its timeout. It
  -- leaves no transaction open: the transaction with the work of the evaluation is committed if the
  -- answer is a success and cancelled if it is an error.
  pub single_settles :
      (stm : Statement H.Stm) (what : H.Stm) (s : State H) (t : Transaction E C)
      → settles stm ≡ some what
      → s.txn ≡ none
      → Tx.transaction E C H.store (H.writeable what) s.db ≡ ok t
      → (res : Result H.V) × (t' : Transaction E C) × Evaluates (H.timeout what) what t s res t'
        × Rounds s t' res (step stm s)
  single_settles stm what s t k e o =
      let (t', held, ran, rounds) = settled stm what s t k e o in (_, t', ran, rounds)

  -- If the evaluation of a RETURN, or of a statement that the loop does not look into (so not LET, USE,
  -- OPTION, BEGIN, COMMIT or CANCEL), fails outside a block, where the store opens a transaction, the
  -- error is reported, the store is as before, and no transaction is left open.
  pub failed_single_keeps :
      (L : EndLaws E) (stm : Statement H.Stm) (what : H.Stm) (s : State H) (t : Transaction E C)
      (e : Error)
      → settles stm ≡ some what
      → s.txn ≡ none
      → Tx.transaction E C H.store (H.writeable what) s.db ≡ ok t
      → (compute_on what t (alone t s)).0 ≡ err e
      → (s' : State H) × (step stm s ≡ next s') × Answered s s' (err e) s.db
  failed_single_keeps L stm what s t e k none_open o failed =
      let (t', _, _, r) = settled stm what s t k none_open o in
      go (step stm s) t' (subst (λ res. Rounds s t' res (step stm s)) failed r)
    where
      go :
          (f : Flow H) (t' : Transaction E C)
          → Rounds s t' (err e) f
          → (s' : State H) × (f ≡ next s') × Answered s s' (err e) s.db
      go (next s') t' r = (s', refl, subst (Answered s s' (err e)) (cancel_keeps L t' s.db) r)
      go (stop s') t' r = absurd r
      go (fail y s') t' r = absurd r
      go (panic s') t' r = absurd r

  -- If a statement that the loop does not look into runs outside a block, where the store opens a transaction, succeeds and the commit of
  -- its transaction fails, the response is the success, and the store is as before.
  pub failed_commit_is_silent :
      (L : EndLaws E) (what : H.Stm) (s : State H) (t : Transaction E C) (v : H.V) (e : Error)
      → s.txn ≡ none
      → Tx.transaction E C H.store (H.writeable what) s.db ≡ ok t
      → (compute_on what t (alone t s)).0 ≡ ok v
      → ((t' : Transaction E C)
          → (compute_on what t (alone t s)).1.txn ≡ some t'
          → (Tx.commit t' s.db).0 ≡ err e)
      → (s' : State H) × (step (other_stm what) s ≡ next s') × Answered s s' (ok v) s.db
  failed_commit_is_silent L what s t v e none_open o good bad =
      let (t', held, _, r) = settled (other_stm what) what s t refl none_open o in
      go (step (other_stm what) s) t' (bad t' held)
        (subst (λ res. Rounds s t' res (step (other_stm what) s)) good r)
    where
      go :
          (f : Flow H) (t' : Transaction E C)
          → (Tx.commit t' s.db).0 ≡ err e
          → Rounds s t' (ok v) f
          → (s' : State H) × (f ≡ next s') × Answered s s' (ok v) s.db
      go (next s') t' b r =
          (s', refl, subst (Answered s s' (ok v)) (failed_commit_keeps L t' s.db e b) r)
      go (stop s') t' b r = absurd r
      go (fail y s') t' b r = absurd r
      go (panic s') t' b r = absurd r
