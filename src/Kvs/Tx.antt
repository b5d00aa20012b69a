-- ===== src/Kvs/Tx.antt =====
-- lib/src/kvs/tx.rs: a transaction on one of the stores, with its cache of definitions. The stores
-- of lib/src/kvs/ixdb and lib/src/kvs/tikv are left out of `Inner`.
pub mod End
pub mod Point
use surreal_dbservice.Base.{ℕ, Bool, List, [], Option}
use surreal_dbservice.Err.{Result, ok, err}
use surreal_dbservice.Kvs.Engine.{Engine, Key, Val}
use surreal_dbservice.Kvs.Mem
use surreal_dbservice.Kvs.Cache.{Catalog, Cache}

pub data Inner (E : Engine) : Type 0 where
  mem file : Mem.Transaction E → Inner E

pub record Transaction (E : Engine) (C : Catalog) : Type 0 where
  pub inner : Inner E
  pub cache : Cache C

-- lib/src/kvs/ds.rs: which store was opened
pub data Store : Type 0 where
  mem_store file_store : Store

module _ {E : Engine} where
  -- the store's own transaction
  abbrev pub core : Inner E → Mem.Transaction E
  core (mem t) = t
  core (file t) = t

  abbrev pub put_back : Inner E → Mem.Transaction E → Inner E
  put_back (mem _) t = mem t
  put_back (file _) t = file t

module _ {E : Engine} {C : Catalog} where
  abbrev pub wrap : Store → Mem.Transaction E → Transaction E C
  wrap mem_store t = record { inner = mem t; cache = [] }
  wrap file_store t = record { inner = file t; cache = [] }

  abbrev pub opened : Store → Result (Mem.Transaction E) → Result (Transaction E C)
  opened s (ok t) = ok (wrap s t)
  opened s (err e) = err e

  -- a method that is passed on to the store's own
  abbrev pub pass :
      {A : Type 0}
      → (Mem.Transaction E → Result A × Mem.Transaction E)
      → Transaction E C
      → Result A × Transaction E C
  pass f t = let (r, u) = f (core t.inner) in (r, record t { inner = put_back t.inner u })

  abbrev pub pass_end :
      (Mem.Transaction E → E.Db → Result (Unit {0}) × Mem.Transaction E × E.Db)
      → Transaction E C
      → E.Db
      → Result (Unit {0}) × Transaction E C × E.Db
  pass_end f t db =
      let (r, u, db') = f (core t.inner) db in (r, record t { inner = put_back t.inner u }, db')

  abbrev pub closed : Transaction E C → Bool
  closed t = Mem.closed (core t.inner)

  unfoldable pub cancel : Transaction E C → E.Db → Result (Unit {0}) × Transaction E C × E.Db
  unfolding Mem.cancel
  cancel = pass_end Mem.cancel

  unfoldable pub commit : Transaction E C → E.Db → Result (Unit {0}) × Transaction E C × E.Db
  unfolding Mem.commit
  commit = pass_end Mem.commit

  unfoldable pub del : Key → Transaction E C → Result (Unit {0}) × Transaction E C
  unfolding Mem.del
  del key = pass (Mem.del key)

  unfoldable pub exi : Key → Transaction E C → Result Bool × Transaction E C
  unfolding Mem.exi
  exi key = pass (Mem.exi key)

  unfoldable pub get : Key → Transaction E C → Result (Option Val) × Transaction E C
  unfolding Mem.get
  get key = pass (Mem.get key)

  unfoldable pub set : Key → Val → Transaction E C → Result (Unit {0}) × Transaction E C
  unfolding Mem.set
  set key val = pass (Mem.set key val)

  unfoldable pub put : Key → Val → Transaction E C → Result (Unit {0}) × Transaction E C
  unfolding Mem.put
  put key val = pass (Mem.put key val)

  unfoldable pub scan :
      Key → Key → ℕ → Transaction E C → Result (List (Key × Val)) × Transaction E C
  unfolding Mem.scan
  scan min max limit = pass (Mem.scan min max limit)

  unfoldable pub putc :
      Key → Val → Option Val → Transaction E C → Result (Unit {0}) × Transaction E C
  unfolding Mem.putc
  putc key val chk = pass (Mem.putc key val chk)

  unfoldable pub delc : Key → Option Val → Transaction E C → Result (Unit {0}) × Transaction E C
  unfolding Mem.delc
  delc key chk = pass (Mem.delc key chk)

-- `Datastore::transaction`
unfoldable pub transaction :
    (E : Engine) (C : Catalog) → Store → Bool → E.Db → Result (Transaction E C)
unfolding Mem.transaction
transaction E C s write db = opened s (Mem.transaction E write db)
