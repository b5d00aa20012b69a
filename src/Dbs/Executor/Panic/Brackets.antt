-- ===== src/Dbs/Executor/Panic/Brackets.antt =====
-- Well-bracketed queries of lib/src/dbs/executor.rs do not panic.
use surreal_dbservice.Base.{
  ℕ, String, ◌≡◌, refl, ap, ◌∙◌, subst, Bool, true, false, not, Option, none, some, List, [], ◌∷◌,
  is_some, some-injective, if◌then◌else◌,
}
use surreal_dbservice.Err.{Result, ok, err, query_not_executed}
use surreal_dbservice.Ctx
use surreal_dbservice.Kvs.Engine.{Engine}
use surreal_dbservice.Kvs.Cache.{Catalog}
use surreal_dbservice.Kvs.Tx
use surreal_dbservice.Kvs.Tx.{Transaction}
use surreal_dbservice.Dbs.Options.{Options}
use surreal_dbservice.Dbs.Executor.State.{
  Statement, option_stm, begin_stm, cancel_stm, commit_stm, use_stm, set_stm, output_stm, other_stm,
  Host, State, Flow, next, stop, fail, panic, begin, cancel,
}
use surreal_dbservice.Dbs.Executor.Run.{
  process, reset, step, normal, evaluate_on, bind_on, computed, compute_on, run_within, guarded,
  option_end, use_end, bound, bind, execute, proceed, cancel_end,
}
use surreal_dbservice.Dbs.Executor.Panic.{
  Opens, respond-txn, answered-Opens, cancel_open-Opens, finalise-Opens,
}

-- Whether a block is open behind the statement; `none` for a CANCEL outside a block.
abbrev pub brackets_step : {Stm : Type 0} → Bool → Statement Stm → Option Bool
brackets_step b begin_stm = some true
brackets_step true cancel_stm = some false
brackets_step false cancel_stm = none
brackets_step b commit_stm = some false
brackets_step b _ = some b

abbrev pub brackets_then : (Bool → Option Bool) → Option Bool → Option Bool
brackets_then rest none = none
brackets_then rest (some b) = rest b

unfoldable pub brackets : {Stm : Type 0} → List (Statement Stm) → Bool → Option Bool
brackets [] b = some b
brackets (stm ∷ rest) b = brackets_then (brackets rest) (brackets_step b stm)

brackets_then-some :
    (rest : Bool → Option Bool) (o : Option Bool) (b : Bool)
    → brackets_then rest o ≡ some b
    → (c : Bool) × (o ≡ some c) × (rest c ≡ some b)
brackets_then-some rest none b h = cc
brackets_then-some rest (some c) b h = (c, refl, h)

module _ {E : Engine} {C : Catalog} {H : Host E C} where
  cancel-Opens :
      (loc : Bool) (s : State H) → is_some s.txn ≡ true → Opens (not loc) (cancel H loc s)
  unfolding cancel
  cancel-Opens true s h = cancel_open-Opens s.txn s h
  cancel-Opens false s h = h

  run_within-open :
      (o : Option ℕ) (what : H.Stm) (t : Transaction E C) (s : State H)
      → is_some (run_within o what t s).1.txn ≡ true
  run_within-open none what t s = refl
  run_within-open (some d) what t s = refl

  evaluate_on-Opens :
      (o : Option (Transaction E C)) (stm : Statement H.Stm) (what : H.Stm) (start : ℕ) (loc : Bool)
      (s : State H)
      → is_some o ≡ true
      → Opens (not loc) (evaluate_on o stm what start loc s)
  unfolding compute_on
  evaluate_on-Opens none stm what start loc s h = cc
  evaluate_on-Opens (some t) stm what start loc s h =
      answered-Opens stm start (compute_on what t s).0 (not loc) _ (
        finalise-Opens loc (compute_on what t s).0 (compute_on what t s).1
          (run_within-open (H.timeout what) what t s))

  bound-Opens :
      (stm : Statement H.Stm) (name : String) (start : ℕ) (loc : Bool) (x : Result H.V × State H)
      → is_some x.1.txn ≡ true
      → Opens (not loc) (bound stm name start loc x)
  bound-Opens stm name start loc (err e, s) h = tt
  bound-Opens stm name start loc (ok v, s) h =
      answered-Opens stm start (ok H.none_value) (not loc) _
        (cancel-Opens loc (record s { ctx = Ctx.add_value name v s.ctx }) h)

  bind_on-Opens :
      (o : Option (Transaction E C)) (stm : Statement H.Stm) (name : String) (what : H.Stm)
      (start : ℕ) (loc : Bool) (s : State H)
      → is_some o ≡ true
      → Opens (not loc) (bind_on o stm name what start loc s)
  bind_on-Opens none stm name what start loc s h = cc
  bind_on-Opens (some t) stm name what start loc s h =
      bound-Opens stm name start loc (computed (H.compute what s.ctx s.opt s.flags s.now t) s) refl

  use_end-Opens :
      (stm : Statement H.Stm) (r : Result Options) (s : State H)
      → Opens (is_some s.txn) (use_end stm r s)
  use_end-Opens stm (err e) s = tt
  use_end-Opens stm (ok opt) s = respond-txn stm s.now (ok H.none_value) (record s { opt = opt })

  guarded-Opens :
      (r : Result (Unit {0})) (o : Option Options) (s : State H)
      → Opens (is_some s.txn) (guarded r s (option_end o s))
  guarded-Opens (err e) o s = tt
  guarded-Opens (ok _) none s = tt
  guarded-Opens (ok _) (some opt) s = refl

  cancel_end-Opens : (f : Flow H) → Opens false f → Opens false (cancel_end f)
  cancel_end-Opens (next s) h = refl
  cancel_end-Opens (stop s) h = h
  cancel_end-Opens (fail e s) h = h
  cancel_end-Opens (panic s) h = h

  reset-txn :
      (s : State H) (o : Option (Transaction E C))
      → s.txn ≡ o
      → is_some (reset s).txn ≡ is_some s.txn
  reset-txn s none e = rw e refl
  reset-txn s (some t) e = rw e refl

  if-Opens : (b c : Bool) (f g : Flow H) → Opens c f → Opens c g → Opens c (if b then f else g)
  if-Opens true c f g h k = h
  if-Opens false c f g h k = k

  module _
      (opens : (w : Bool) (db : E.Db)
        → (t : Transaction E C) × (Tx.transaction E C H.store w db ≡ ok t)) where
    begin-Opens :
        (w : Bool) (s : State H) (o : Option (Transaction E C))
        → s.txn ≡ o
        → (not (begin H w s).0 ≡ is_some s.txn) × (is_some (begin H w s).1.txn ≡ true)
    unfolding begin
    begin-Opens w s none e = rw (e, (opens w s.db).1) (refl, refl)
    begin-Opens w s (some t) e = rw e (refl, refl)

    normal-Opens :
        (stm : Statement H.Stm) (what : H.Stm) (s : State H)
        → Opens (is_some s.txn) (normal stm what s)
    unfolding normal
    normal-Opens stm what s =
        let (loc, s1) = begin H (H.writeable what) s in
        let (back, held) = begin-Opens (H.writeable what) s s.txn refl in
        if-Opens s.err (is_some s.txn) _ _ (respond-txn stm s.now (err query_not_executed) s) (
          subst (λ b. Opens b (evaluate_on s1.txn stm what s.now loc s1)) back
            (evaluate_on-Opens s1.txn stm what s.now loc s1 held))

    bind-Opens :
        (stm : Statement H.Stm) (name : String) (what : H.Stm) (start : ℕ) (s : State H)
        → Opens (is_some s.txn) (bind stm name what start (begin H (H.writeable what) s))
    bind-Opens stm name what start s =
        let (loc, s1) = begin H (H.writeable what) s in
        let (back, held) = begin-Opens (H.writeable what) s s.txn refl in
        subst (λ b. Opens b (bind_on s1.txn stm name what start loc s1)) back
          (bind_on-Opens s1.txn stm name what start loc s1 held)

    cancel_stm-Opens :
        (o b : Bool) (s : State H)
        → is_some s.txn ≡ o
        → brackets_step {Stm = H.Stm} o cancel_stm ≡ some b
        → Opens b (cancel_end (cancel H true s))
    cancel_stm-Opens false b s e h = cc
    cancel_stm-Opens true b s e h =
        subst (λ c. Opens c (cancel_end (cancel H true s))) (some-injective _ _ h)
          (cancel_end-Opens (cancel H true s) (cancel-Opens true s e))

    process-Opens :
        (stm : Statement H.Stm) (s : State H) (b : Bool)
        → brackets_step (is_some s.txn) stm ≡ some b
        → Opens b (process stm s)
    unfolding process
    process-Opens (option_stm name what) s b h =
        subst (λ c. Opens c (process (option_stm name what) s)) (some-injective _ _ h)
          (guarded-Opens _ _ s)
    process-Opens begin_stm s b h = (begin-Opens true s s.txn refl).1 ∙ some-injective _ _ h
    process-Opens cancel_stm s b h = cancel_stm-Opens (is_some s.txn) b s refl h
    process-Opens commit_stm s b h = some-injective _ _ h
    process-Opens (use_stm ns db) s b h =
        subst (λ c. Opens c (process (use_stm ns db) s)) (some-injective _ _ h)
          (use_end-Opens _ _ s)
    process-Opens (set_stm name what) s b h =
        subst (λ c. Opens c (process (set_stm name what) s)) (some-injective _ _ h)
          (bind-Opens (set_stm name what) name what s.now s)
    process-Opens (output_stm what) s b h =
        subst (λ c. Opens c (process (output_stm what) s)) (some-injective _ _ h)
          (normal-Opens (output_stm what) what s)
    process-Opens (other_stm what) s b h =
        subst (λ c. Opens c (process (other_stm what) s)) (some-injective _ _ h)
          (normal-Opens (other_stm what) what s)

    step-Opens :
        (stm : Statement H.Stm) (s : State H) (b : Bool)
        → brackets_step (is_some s.txn) stm ≡ some b
        → Opens b (step stm s)
    unfolding step
    step-Opens stm s b h =
        process-Opens stm (reset s) b (ap (λ c. brackets_step c stm) (reset-txn s s.txn refl) ∙ h)

    proceed-Opens :
        (rest : State H → Flow H) (c b : Bool) (f : Flow H)
        → Opens c f
        → ((s : State H) → is_some s.txn ≡ c → Opens b (rest s))
        → Opens b (proceed rest f)
    proceed-Opens rest c b (next s) h k = k s h
    proceed-Opens rest c b (stop s) h k = h
    proceed-Opens rest c b (fail e s) h k = h
    proceed-Opens rest c b (panic s) h k = h

    -- If the store opens every transaction it is asked for and no CANCEL of the query stands outside
    -- a block, then the loop does not panic, and where it reaches the end of the query a transaction
    -- is open exactly if the brackets of the query say so.
    pub bracketed_query_is_safe :
        (stms : List (Statement H.Stm)) (s : State H) (b : Bool)
        → brackets stms (is_some s.txn) ≡ some b
        → Opens b (execute stms s)
    unfolding execute brackets
    bracketed_query_is_safe [] s b h = some-injective _ _ h
    bracketed_query_is_safe (stm ∷ rest) s b h =
        let (c, e, k) = brackets_then-some _ _ b h in
        proceed-Opens (execute rest) c b (step stm s) (step-Opens stm s c e)
          (λ s' o. bracketed_query_is_safe rest s' b (ap (brackets rest) o ∙ k))
