-- ===== src/Tests/Executor.antt =====
-- lib/src/dbs/executor.rs on concrete queries.
use surreal_dbservice.Base.{
  ℕ, ◌≡◌, refl, Bool, true, false, ◌+◌, none, some, some-injective, List, [], ◌∷◌, ◌++◌,
}
use surreal_dbservice.Err.{Result, ok, err, tx, tx_readonly}
use surreal_dbservice.Ctx.{Flags, background, alloc}
use surreal_dbservice.Kvs.Tx
use surreal_dbservice.Kvs.Tx.{Transaction, mem, mem_store, set, del}
use surreal_dbservice.Dbs.Auth.{kv_auth}
use surreal_dbservice.Dbs.Options
use surreal_dbservice.Dbs.Options.{Options}
use surreal_dbservice.Dbs.Executor.State.{
  Statement, begin_stm, cancel_stm, commit_stm, other_stm, Host, State, next,
}
use surreal_dbservice.Dbs.Executor.Run.{step, execute, compute_on}
use surreal_dbservice.Dbs.Executor.Block.End.{Committed, Cancelled, BlockEnds}
use surreal_dbservice.Dbs.Executor.Block.Atomic.{block_atomic, block-Cancelled}
use surreal_dbservice.Dbs.Executor.Single.{
  alone, Answered, Evaluates, Rounds, single_settles, failed_single_keeps,
}
use surreal_dbservice.Dbs.Executor.Panic.{Opens}
use surreal_dbservice.Dbs.Executor.Panic.Brackets.{brackets, bracketed_query_is_safe}
use surreal_dbservice.Tests.Demo.{Table, store, end_laws, no_catalog, three}

-- The statements of the tests.
data Job : Type 0 where
  touch read wrong : Job

abbrev writes : Job → Bool
writes touch = true
writes _ = false

abbrev counted :
    (up : Bool)
    → ℕ
    → Flags
    → Result (Unit {0}) × Transaction (store up) no_catalog
    → Result ℕ × Transaction (store up) no_catalog × ℕ × Flags
counted up now fl (ok _, t) = (ok 1, t, now, fl)
counted up now fl (err e, t) = (err e, t, now, fl)

abbrev work :
    (up : Bool)
    → Job
    → Flags
    → ℕ
    → Transaction (store up) no_catalog
    → Result ℕ × Transaction (store up) no_catalog × ℕ × Flags
work up touch fl now t = counted up (now + 1) fl (del (1 ∷ []) t)
work up read fl now t = (ok 2, t, now + 1, fl)
work up wrong fl now t = (err (tx "wrong"), t, now + 1, fl)

abbrev host : (up : Bool) → Host (store up) no_catalog
host up = record {
  V = ℕ;
  Stm = Job;
  store = mem_store;
  none_value = 0;
  writeable = writes;
  timeout = λ j. none;
  display = λ s. "";
  uppercase = λ s. s;
  compute = λ j ctx opt fl now t. work up j fl now t;
}

abbrev idle : (up : Bool) → State (host up)
idle up = record {
  ctx = (background (record { count = 0; raised = λ i. false })).0;
  opt = Options.new kv_auth;
  err = false;
  txn = none;
  db = three;
  now = 0;
  flags = alloc (record { count = 0; raised = λ i. false });
  buf = [];
  out = [];
}

abbrev txn_of : (up rw : Bool) → Transaction (store up) no_catalog
txn_of up rw = record { inner = mem (record { finished = false; rw = rw; tx = three }); cache = [] }

opens_for :
    (w : Bool) → Tx.transaction (store true) no_catalog mem_store w three ≡ ok (txn_of true w)
unfolding Tx.transaction
opens_for w = refl

abbrev body : List (Statement Job)
body = other_stm touch ∷ other_stm read ∷ []

block_atomic_example :
    BlockEnds
      (Committed (host true) (idle true).opt (txn_of true true) body three [])
      three
      []
      (execute (begin_stm ∷ body ++ commit_stm ∷ []) (idle true))
block_atomic_example =
    block_atomic (end_laws true) body (idle true) (txn_of true true) (refl, (refl, tt)) refl refl
      (opens_for true)

block-Cancelled_example :
    BlockEnds
      (Cancelled (host true) three [])
      three
      []
      (execute (begin_stm ∷ body ++ cancel_stm ∷ []) (idle true))
block-Cancelled_example =
    block-Cancelled (end_laws true) body (idle true) (txn_of true true) (refl, (refl, tt)) refl refl
      (opens_for true)

always_opens :
    (w : Bool) (db : Table)
    → (t : Transaction (store true) no_catalog) × (Tx.transaction
          (store true)
          no_catalog
          mem_store
          w
          db
        ≡ ok t)
unfolding Tx.transaction
always_opens w db = (_, refl)

closed_again : brackets (begin_stm ∷ body ++ commit_stm ∷ []) false ≡ some false
unfolding brackets
closed_again = refl

bracketed_query_is_safe_example :
    Opens {H = host true} false (execute (begin_stm ∷ body ++ commit_stm ∷ []) (idle true))
bracketed_query_is_safe_example =
    bracketed_query_is_safe always_opens (begin_stm ∷ body ++ commit_stm ∷ []) (idle true) false
      closed_again

single_settles_example :
    (res : Result ℕ) × (t' : Transaction (store true) no_catalog) × Evaluates {H = host true} none
      touch
      (txn_of true true)
      (idle true)
      res
      t'
    × Rounds (idle true) t' res (step (other_stm touch) (idle true))
single_settles_example =
    single_settles (other_stm touch) touch (idle true) (txn_of true true) refl refl (opens_for true)

wrong_fails :
    (compute_on {H = host true} wrong (txn_of true false) (alone (txn_of true false) (idle true))).0
    ≡ err (tx "wrong")
unfolding compute_on
wrong_fails = refl

failed_single_keeps_example :
    (s' : State (host true)) × (step (other_stm wrong) (idle true) ≡ next s')
    × Answered (idle true) s' (err (tx "wrong")) three
failed_single_keeps_example =
    failed_single_keeps (end_laws true) (other_stm wrong) wrong (idle true) (txn_of true false)
      (tx "wrong") refl refl (opens_for false) wrong_fails

read_succeeds :
    (compute_on {H = host true} read (txn_of true false) (alone (txn_of true false) (idle true))).0
    ≡ ok 2
unfolding compute_on
read_succeeds = refl

-- the commit of a transaction that was opened for reading
read_not_committed :
    (t' : Transaction (store true) no_catalog)
    → (compute_on {H = host true} read
        (txn_of true false)
        (alone (txn_of true false) (idle true))).1.txn
      ≡ some t'
    → (Tx.commit t' three).0 ≡ err tx_readonly
unfolding compute_on Tx.commit
read_not_committed t' h = rw (← some-injective _ _ h) refl

store_down :
    Tx.transaction (store false) no_catalog mem_store false three ≡ err (tx "the store is down")
unfolding Tx.transaction
store_down = refl
