-- ===== src/Dbs/Executor/Block.antt =====
-- Statements between BEGIN and COMMIT or CANCEL in lib/src/dbs/executor.rs.
pub mod Keep
pub mod End
pub mod Atomic
use surreal_dbservice.Base.{
  ℕ, String, ◌≡◌, refl, ap, sym, ◌∙◌, Bool, true, false, Option, none, some, List, [], ◌∷◌, ◌++◌,
  map, arith, is_some, Bool-cases, inl, inr, if◌then◌else◌,
}
use surreal_dbservice.Base.Lists.{All, All-append}
use surreal_dbservice.Err.{Error, Result, ok, err, query_not_executed, ◌>>=◌}
use surreal_dbservice.Ctx.{Context, Flags}
use surreal_dbservice.Dbs.Options.{Options}
use surreal_dbservice.Kvs.Engine.{Engine}
use surreal_dbservice.Kvs.Cache.{Catalog}
use surreal_dbservice.Kvs.Tx
use surreal_dbservice.Kvs.Tx.{Transaction}
use surreal_dbservice.Dbs.Response.{Response}
use surreal_dbservice.Dbs.Executor.State.{
  Statement, option_stm, begin_stm, cancel_stm, commit_stm, use_stm, set_stm, output_stm, other_stm,
  Host, State, Flow, next, stop, fail, panic, begin, commit, cancel, buf_cancel, buf_commit,
  set_option,
}
use surreal_dbservice.Dbs.Executor.Run.{
  answer, mark, respond, run_within, guarded, option_end, use_end, bound, bind, reset, proceed,
  after_compute, evaluate, compute_on, normal, process, step, execute, use_ns, use_db, buffer,
}

abbrev pub is_ok : {A : Type 0} → Result A → Bool
is_ok (ok _) = true
is_ok (err _) = false

-- Every response is a success, or every one an error.
abbrev pub AllOk : {V : Type 0} → List (Response V) → Type 0
AllOk {V} rs = All (λ (r : Response V). is_ok r.result ≡ true) rs

abbrev pub AllErr : {V : Type 0} → List (Response V) → Type 0
AllErr {V} rs = All (λ (r : Response V). is_ok r.result ≡ false) rs

-- Statements that do not end the block.
abbrev pub stays : {Stm : Type 0} → Statement Stm → Bool
stays cancel_stm = false
stays commit_stm = false
stays _ = true

buffer-AllOk :
    {Stm V : Type 0} (stm : Statement Stm) (buf : List (Response V)) (r : Response V)
    → AllOk buf
    → is_ok r.result ≡ true
    → AllOk (buffer stm buf r)
buffer-AllOk (output_stm _) buf r h k = (k, tt)
buffer-AllOk (other_stm _) buf r h k = All-append _ buf (r ∷ []) h (k, tt)
buffer-AllOk _ buf r h k = All-append _ buf (r ∷ []) h (k, tt)

-- what a statement evaluates in the block, where it evaluates anything
abbrev pub evaluates : {Stm : Type 0} → Statement Stm → Option Stm
evaluates (set_stm name what) = some what
evaluates (output_stm what) = some what
evaluates (other_stm what) = some what
evaluates _ = none

abbrev pub AllStay : {Stm : Type 0} → List (Statement Stm) → Type 0
AllStay {Stm} body = All (λ (stm : Statement Stm). stays stm ≡ true) body

module _ {E : Engine} {C : Catalog} (H : Host E C) (opt0 : Options) (t0 : Transaction E C) where
  -- `Worked body opt t`: from the options `opt0` and the transaction `t0`, every statement of `body`
  -- did its work, in order: what evaluates something was evaluated on the transaction that the
  -- statements before it left, under their options, and succeeded. It led to `opt` and `t`.
  pub data Worked : List (Statement H.Stm) → Options → Transaction E C → Type 0 where
    nothing_yet : Worked [] opt0 t0
    nested :
        {body : List (Statement H.Stm)} {opt : Options} {t : Transaction E C}
        → Worked body opt t
        → Worked (body ++ begin_stm ∷ []) opt t
    selected :
        {body : List (Statement H.Stm)} {opt : Options} {t : Transaction E C}
        → Worked body opt t
        → (ns db : Option String) (opt' : Options) → (use_ns ns opt >>= use_db db) ≡ ok opt'
        → Worked (body ++ use_stm ns db ∷ []) opt' t
    switched :
        {body : List (Statement H.Stm)} {opt : Options} {t : Transaction E C}
        → Worked body opt t
        → (name : String) (what : Bool) (opt' : Options) → set_option H name what opt ≡ some opt'
        → Worked (body ++ option_stm name what ∷ []) opt' t
    evaluated :
        {body : List (Statement H.Stm)} {opt : Options} {t : Transaction E C}
        → Worked body opt t
        → (stm : Statement H.Stm) (what : H.Stm) → evaluates stm ≡ some what
        → (ctx : Context H.V) (flags : Flags) (now : ℕ)
        → is_ok (H.compute what ctx opt flags now t).0 ≡ true
        → Worked (body ++ stm ∷ []) opt (H.compute what ctx opt flags now t).1

module _ {E : Engine} {C : Catalog} {H : Host E C} where
  -- A transaction is open, over the store `db` and behind the responses `out`.
  pub record Inside (db : E.Db) (out : List (Response H.V)) (s : State H) : Type 0 where
    pub opened : (t : Transaction E C) × (s.txn ≡ some t)
    pub same_db : s.db ≡ db
    pub same_out : s.out ≡ out

  pub respond-open :
      (stm : Statement H.Stm) (start : ℕ) (res : Result H.V) (s : State H) (t : Transaction E C)
      → s.txn ≡ some t
      → respond stm start res s
        ≡ record (mark res s) { buf = buffer stm s.buf (answer stm start res s) }
  unfolding respond
  respond-open stm start (ok v) s t e = rw e refl
  respond-open stm start (err y) s t e = rw e refl

  pub begin-open :
      (write : Bool) (s : State H) (t : Transaction E C)
      → s.txn ≡ some t
      → begin H write s ≡ (false, s)
  unfolding begin
  begin-open write s t e = rw e refl

  module _ (opt0 : Options) (t0 : Transaction E C) (db : E.Db) (out : List (Response H.V)) where
    -- The state inside a block that was begun with the options `opt0` and the transaction `t0`,
    -- behind the statements `body` of it.
    pub record InBlock (body : List (Statement H.Stm)) (s : State H) : Type 0 where
      pub inside : Inside db out s
      pub honest : s.err ≡ false → AllOk s.buf
      pub worked : s.err ≡ false → Worked H opt0 t0 body s.opt inside.opened.0

    pub respond_ok-InBlock :
        (body : List (Statement H.Stm)) (stm : Statement H.Stm) (start : ℕ) (v : H.V) (s : State H)
        → InBlock body s
        → InBlock body (respond stm start (ok v) s)
    respond_ok-InBlock body stm start v s h =
        rw (respond-open stm start (ok v) s h.inside.opened.0 h.inside.opened.1) (record {
          inside = record {
            opened = h.inside.opened;
            same_db = h.inside.same_db;
            same_out = h.inside.same_out;
          };
          honest = λ e. buffer-AllOk stm s.buf _ (h.honest e) refl;
          worked = h.worked;
        })

    pub respond_err-InBlock :
        (body : List (Statement H.Stm)) (stm : Statement H.Stm) (start : ℕ) (y : Error)
        (s : State H)
        → Inside db out s
        → InBlock body (respond stm start (err y) s)
    respond_err-InBlock body stm start y s h =
        rw (respond-open stm start (err y) s h.opened.0 h.opened.1) (record {
          inside = record { opened = h.opened; same_db = h.same_db; same_out = h.same_out };
          honest = λ e. cc;
          worked = λ e. cc;
        })
