-- ===== src/Dbs/Executor/Block/Keep.antt =====
-- What each statement of lib/src/dbs/executor.rs does inside an open block.
use surreal_dbservice.Base.{
  ℕ, String, ◌≡◌, refl, ap, sym, subst, Bool, true, false, Option, none, some, List, [], ◌∷◌, ◌++◌,
  if◌then◌else◌,
}
use mathlib.Core.List.{append_assoc, append-nil}
use surreal_dbservice.Err.{Error, Result, ok, err, query_not_executed, query_timedout, ◌>>=◌}
use surreal_dbservice.Ctx.{Context, Flags}
use surreal_dbservice.Dbs.Options.{Options}
use surreal_dbservice.Kvs.Engine.{Engine}
use surreal_dbservice.Kvs.Cache.{Catalog}
use surreal_dbservice.Kvs.Tx.{Transaction}
use surreal_dbservice.Dbs.Response.{Response}
use surreal_dbservice.Dbs.Executor.State.{
  Statement, option_stm, begin_stm, cancel_stm, commit_stm, use_stm, set_stm, output_stm, other_stm,
  Host, State, Flow, next, stop, fail, panic, begin, commit, cancel, set_option,
}
use surreal_dbservice.Dbs.Executor.Run.{
  run_within, guarded, option_end, use_end, bound, bind, reset, proceed, after_compute, evaluate,
  evaluate_on, compute_on, computed, use_ns, use_db, normal, process, step, execute,
}
use surreal_dbservice.Dbs.Executor.Block.{
  is_ok, evaluates, stays, AllStay, nested, selected, switched, evaluated, Inside, InBlock,
  respond_ok-InBlock, respond_err-InBlock, begin-open,
}

module _ {E : Engine} {C : Catalog} {H : Host E C} (opt0 : Options) (t0 : Transaction E C)
    (db : E.Db) (out : List (Response H.V)) where
  -- What a list of statements does to a block: it goes on behind them, or the loop ends with the
  -- store and the responses as they were. It does not panic.
  abbrev pub Keeps : List (Statement H.Stm) → Flow H → Type 0
  Keeps body (next s) = InBlock opt0 t0 db out body s
  Keeps body (stop s) = (s.db ≡ db) × (s.out ≡ out)
  Keeps body (fail e s) = (s.db ≡ db) × (s.out ≡ out)
  Keeps body (panic s) = ⊥

  -- the evaluation of the last statement of `body`
  abbrev Ran : List (Statement H.Stm) → Result H.V × State H → Type 0
  Ran body (ok v, s) = InBlock opt0 t0 db out body s
  Ran body (err e, s) = Inside db out s

  if-Keeps :
      (body : List (Statement H.Stm)) (b : Bool) (f g : Flow H)
      → (b ≡ true → Keeps body f)
      → (b ≡ false → Keeps body g)
      → Keeps body (if b then f else g)
  if-Keeps body true f g h k = h refl
  if-Keeps body false f g h k = k refl

  Ran-computed :
      (body : List (Statement H.Stm)) (stm : Statement H.Stm) (what : H.Stm) (ctx : Context H.V)
      (flags : Flags) (s : State H)
      → (h : InBlock opt0 t0 db out body s) → evaluates stm ≡ some what
      → Ran (body ++ stm ∷ []) (computed (H.compute what ctx s.opt flags s.now h.inside.opened.0) s)
  Ran-computed body stm what ctx flags s h e =
      go (H.compute what ctx s.opt flags s.now h.inside.opened.0).0 refl
    where
      go :
          (res : Result H.V)
          → (H.compute what ctx s.opt flags s.now h.inside.opened.0).0 ≡ res
          → Ran
              (body ++ stm ∷ [])
              (res, (computed (H.compute what ctx s.opt flags s.now h.inside.opened.0) s).1)
      go (ok v) r = record {
        inside = record {
          opened = (_, refl);
          same_db = h.inside.same_db;
          same_out = h.inside.same_out;
        };
        honest = h.honest;
        worked = λ f. evaluated (h.worked f) stm what e ctx flags s.now (ap is_ok r);
      }
      go (err y) r = record {
        opened = (_, refl);
        same_db = h.inside.same_db;
        same_out = h.inside.same_out;
      }

  Ran-Inside :
      (body : List (Statement H.Stm)) (x : Result H.V × State H) → Ran body x → Inside db out x.1
  Ran-Inside body (ok v, s) h = h.inside
  Ran-Inside body (err e, s) h = h

  Ran-timed :
      (body : List (Statement H.Stm)) (b : Bool) (y : Error) (x : Result H.V × State H)
      → Ran body x
      → Ran body (if b then err y else x.0, x.1)
  Ran-timed body true y x h = Ran-Inside body x h
  Ran-timed body false y x h = h

  run_within-Ran :
      (o : Option ℕ) (body : List (Statement H.Stm)) (stm : Statement H.Stm) (what : H.Stm)
      (s : State H)
      → (h : InBlock opt0 t0 db out body s) → evaluates stm ≡ some what
      → Ran (body ++ stm ∷ []) (run_within o what h.inside.opened.0 s)
  run_within-Ran none body stm what s h e = Ran-computed body stm what s.ctx s.flags s h e
  run_within-Ran (some d) body stm what s h e =
      Ran-timed (body ++ stm ∷ []) _ query_timedout _ (Ran-computed body stm what _ _ s h e)

  after_compute-Keeps :
      (body : List (Statement H.Stm)) (stm : Statement H.Stm) (start : ℕ) (x : Result H.V × State H)
      → Ran body x
      → Keeps body (after_compute stm start false x)
  unfolding commit cancel
  after_compute-Keeps body stm start (ok v, s) h =
      respond_ok-InBlock opt0 t0 db out body stm start v s h
  after_compute-Keeps body stm start (err e, s) h =
      respond_err-InBlock opt0 t0 db out body stm start e s h

  evaluate_on-open :
      (o : Option (Transaction E C)) (t : Transaction E C) (stm : Statement H.Stm) (what : H.Stm)
      (start : ℕ) (s : State H)
      → o ≡ some t
      → evaluate_on o stm what start false s ≡ after_compute stm start false (compute_on what t s)
  evaluate_on-open o t stm what start s e = rw e refl

  evaluate-Keeps :
      (body : List (Statement H.Stm)) (stm : Statement H.Stm) (what : H.Stm) (start : ℕ)
      (s : State H)
      → evaluates stm ≡ some what
      → InBlock opt0 t0 db out body s
      → Keeps (body ++ stm ∷ []) (evaluate stm what start (begin H (H.writeable what) s))
  unfolding compute_on
  evaluate-Keeps body stm what start s e h =
      rw (begin-open (H.writeable what) s h.inside.opened.0 h.inside.opened.1) (
        subst (Keeps (body ++ stm ∷ []))
          (sym (evaluate_on-open s.txn h.inside.opened.0 stm what start s h.inside.opened.1))
          (after_compute-Keeps (body ++ stm ∷ []) stm start _
            (run_within-Ran (H.timeout what) body stm what s h e)))

  normal-Keeps :
      (body : List (Statement H.Stm)) (stm : Statement H.Stm) (what : H.Stm) (s : State H)
      → evaluates stm ≡ some what
      → InBlock opt0 t0 db out body s
      → Keeps (body ++ stm ∷ []) (normal stm what s)
  unfolding normal
  normal-Keeps body stm what s e h =
      if-Keeps (body ++ stm ∷ []) s.err _ _
        (λ _.
          respond_err-InBlock opt0 t0 db out (body ++ stm ∷ []) stm s.now query_not_executed s
            h.inside)
        (λ _. evaluate-Keeps body stm what s.now s e h)

  guarded-Keeps :
      (body : List (Statement H.Stm)) (name : String) (what : Bool) (r : Result (Unit {0}))
      (o : Option Options) (s : State H)
      → set_option H name what s.opt ≡ o
      → InBlock opt0 t0 db out body s
      → Keeps (body ++ option_stm name what ∷ []) (guarded r s (option_end o s))
  guarded-Keeps body name what (err e) o s k h = (h.inside.same_db, h.inside.same_out)
  guarded-Keeps body name what (ok _) none s k h = (h.inside.same_db, h.inside.same_out)
  guarded-Keeps body name what (ok _) (some opt) s k h = record {
    inside = record {
      opened = h.inside.opened;
      same_db = h.inside.same_db;
      same_out = h.inside.same_out;
    };
    honest = h.honest;
    worked = λ f. switched (h.worked f) name what opt k;
  }

  use_end-Keeps :
      (body : List (Statement H.Stm)) (n d : Option String) (r : Result Options) (s : State H)
      → (use_ns n s.opt >>= use_db d) ≡ r
      → InBlock opt0 t0 db out body s
      → Keeps (body ++ use_stm n d ∷ []) (use_end (use_stm n d) r s)
  use_end-Keeps body n d (err e) s k h = (h.inside.same_db, h.inside.same_out)
  use_end-Keeps body n d (ok opt) s k h =
      respond_ok-InBlock opt0 t0 db out (body ++ use_stm n d ∷ []) (use_stm n d) s.now H.none_value
        (record s { opt = opt })
        (record {
          inside = record {
            opened = h.inside.opened;
            same_db = h.inside.same_db;
            same_out = h.inside.same_out;
          };
          honest = h.honest;
          worked = λ f. selected (h.worked f) n d opt k;
        })

  bound-Keeps :
      (body : List (Statement H.Stm)) (stm : Statement H.Stm) (name : String) (start : ℕ)
      (x : Result H.V × State H)
      → Ran body x
      → Keeps body (bound stm name start false x)
  unfolding cancel
  bound-Keeps body stm name start (err e, s) h = (h.same_db, h.same_out)
  bound-Keeps body stm name start (ok v, s) h =
      respond_ok-InBlock opt0 t0 db out body stm start H.none_value _ (record {
        inside = record {
          opened = h.inside.opened;
          same_db = h.inside.same_db;
          same_out = h.inside.same_out;
        };
        honest = h.honest;
        worked = h.worked;
      })

  bind-Keeps :
      (body : List (Statement H.Stm)) (stm : Statement H.Stm) (name : String) (what : H.Stm)
      (start : ℕ) (s : State H)
      → evaluates stm ≡ some what
      → InBlock opt0 t0 db out body s
      → Keeps (body ++ stm ∷ []) (bind stm name what start (begin H (H.writeable what) s))
  bind-Keeps body stm name what start s e h =
      rw (begin-open (H.writeable what) s h.inside.opened.0 h.inside.opened.1) (
        rw h.inside.opened.1 (
          bound-Keeps (body ++ stm ∷ []) stm name start _
            (Ran-computed body stm what s.ctx s.flags s h e)))

  begin-Keeps :
      (body : List (Statement H.Stm)) (s : State H)
      → InBlock opt0 t0 db out body s
      → InBlock opt0 t0 db out (body ++ begin_stm ∷ []) s
  begin-Keeps body s h = record {
    inside = h.inside;
    honest = h.honest;
    worked = λ f. nested (h.worked f);
  }

  process-Keeps :
      (body : List (Statement H.Stm)) (stm : Statement H.Stm) (s : State H)
      → stays stm ≡ true
      → InBlock opt0 t0 db out body s
      → Keeps (body ++ stm ∷ []) (process stm s)
  unfolding process
  process-Keeps body (option_stm name what) s k h = guarded-Keeps body name what _ _ s refl h
  process-Keeps body begin_stm s k h =
      rw (begin-open true s h.inside.opened.0 h.inside.opened.1) (begin-Keeps body s h)
  process-Keeps body cancel_stm s k h = cc
  process-Keeps body commit_stm s k h = cc
  process-Keeps body (use_stm n d) s k h = use_end-Keeps body n d _ s refl h
  process-Keeps body (set_stm name what) s k h =
      bind-Keeps body (set_stm name what) name what s.now s refl h
  process-Keeps body (output_stm what) s k h = normal-Keeps body (output_stm what) what s refl h
  process-Keeps body (other_stm what) s k h = normal-Keeps body (other_stm what) what s refl h

  reset-open : (s : State H) (t : Transaction E C) → s.txn ≡ some t → reset s ≡ s
  reset-open s t e = rw e refl

  -- A statement that does not end the block keeps the block open, with nothing of it in the store;
  -- as long as no error is marked, every buffered response is a success and the open transaction is
  -- the work of all statements so far.
  step-Keeps :
      (body : List (Statement H.Stm)) (stm : Statement H.Stm) (s : State H)
      → stays stm ≡ true
      → InBlock opt0 t0 db out body s
      → Keeps (body ++ stm ∷ []) (step stm s)
  unfolding step
  step-Keeps body stm s k h =
      rw (reset-open s h.inside.opened.0 h.inside.opened.1) (process-Keeps body stm s k h)

  proceed-Keeps :
      (body all : List (Statement H.Stm)) (rest : State H → Flow H) (f : Flow H)
      → Keeps body f
      → ((s : State H) → InBlock opt0 t0 db out body s → Keeps all (rest s))
      → Keeps all (proceed rest f)
  proceed-Keeps body all rest (next s) h k = k s h
  proceed-Keeps body all rest (stop s) h k = h
  proceed-Keeps body all rest (fail e s) h k = h
  proceed-Keeps body all rest (panic s) h k = h

  -- So does any list of such statements.
  pub execute-Keeps :
      (before body : List (Statement H.Stm)) (s : State H)
      → AllStay body
      → InBlock opt0 t0 db out before s
      → Keeps (before ++ body) (execute body s)
  unfolding execute
  execute-Keeps before [] s k h =
      subst (λ xs. InBlock opt0 t0 db out xs s) (sym (append-nil before)) h
  execute-Keeps before (stm ∷ body) s k h =
      subst (λ xs. Keeps xs (execute (stm ∷ body) s)) (append_assoc before (stm ∷ []) body)
        (proceed-Keeps (before ++ stm ∷ []) ((before ++ stm ∷ []) ++ body) (execute body)
          (step stm s) (step-Keeps before stm s k.0 h)
          (λ s' h'. execute-Keeps (before ++ stm ∷ []) body s' k.1 h'))
