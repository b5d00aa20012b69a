-- ===== src/Kvs/Mem.antt =====
-- lib/src/kvs/mem/mod.rs; lib/src/kvs/file/mod.rs is the same code.
-- A method takes the transaction and returns its result with the transaction that it leaves.
pub mod Guards
pub mod Lifecycle
use surreal_dbservice.Base.{ℕ, String, Bool, true, false, not, List, Option, if◌then◌else◌}
use surreal_dbservice.Err.{Result, ok, err, tx, tx_finished, tx_readonly}
use surreal_dbservice.Kvs.Engine.{
  Engine, Reply, good, bad, EngineError, key_already_exists, other, lift, Key, Val,
}

pub record Transaction (E : Engine) : Type 0 where
  -- `ok` in the source: is the transaction complete?
  pub finished : Bool
  pub rw : Bool
  pub tx : E.Tx

-- `e.to_string()`
abbrev pub to_string : Engine → EngineError → String
to_string E key_already_exists = E.exists_text
to_string E (other s) = s

-- `Datastore::transaction`
unfoldable pub transaction : (E : Engine) → Bool → E.Db → Result (Transaction E)
transaction E write db = elim (E.begin write db) [
  | good t ↦ ok (record { finished = false; rw = write; tx = t })
  | bad e ↦ err (tx (to_string E e))
]

module _ {E : Engine} where
  abbrev pub closed : Transaction E → Bool
  closed t = t.finished

  -- the transaction after a call of the engine
  abbrev pub after : {A : Type 0} → Transaction E → Reply A × E.Tx → Result A × Transaction E
  after t (r, x) = (lift r, record t { tx = x })

  abbrev pub after_end :
      Transaction E → Reply (Unit {0}) × E.Tx × E.Db → Result (Unit {0}) × Transaction E × E.Db
  after_end t (r, x, db) = (lift r, record t { finished = true; tx = x }, db)

  unfoldable pub cancel : Transaction E → E.Db → Result (Unit {0}) × Transaction E × E.Db
  unfolding lift
  cancel t db = if t.finished then (err tx_finished, t, db) else after_end t (E.cancel t.tx db)

  unfoldable pub commit : Transaction E → E.Db → Result (Unit {0}) × Transaction E × E.Db
  unfolding lift
  commit t db =
      if t.finished
      then (err tx_finished, t, db)
      else if not t.rw
      then (err tx_readonly, t, db)
      else after_end t (E.commit t.tx db)

  -- the guard of the reads
  abbrev pub reading :
      {A : Type 0} → Transaction E → Result A × Transaction E → Result A × Transaction E
  reading t body = if t.finished then (err tx_finished, t) else body

  -- the two guards of the writes
  abbrev pub writing :
      {A : Type 0} → Transaction E → Result A × Transaction E → Result A × Transaction E
  writing t body =
      if t.finished then (err tx_finished, t) else if not t.rw then (err tx_readonly, t) else body

  unfoldable pub exi : Key → Transaction E → Result Bool × Transaction E
  unfolding lift
  exi key t = reading t (after t (E.exi key t.tx))

  unfoldable pub get : Key → Transaction E → Result (Option Val) × Transaction E
  unfolding lift
  get key t = reading t (after t (E.get key t.tx))

  unfoldable pub set : Key → Val → Transaction E → Result (Unit {0}) × Transaction E
  unfolding lift
  set key val t = writing t (after t (E.set key val t.tx))

  unfoldable pub put : Key → Val → Transaction E → Result (Unit {0}) × Transaction E
  unfolding lift
  put key val t = writing t (after t (E.put key val t.tx))

  unfoldable pub putc : Key → Val → Option Val → Transaction E → Result (Unit {0}) × Transaction E
  unfolding lift
  putc key val chk t = writing t (after t (E.putc key val chk t.tx))

  unfoldable pub del : Key → Transaction E → Result (Unit {0}) × Transaction E
  unfolding lift
  del key t = writing t (after t (E.del key t.tx))

  unfoldable pub delc : Key → Option Val → Transaction E → Result (Unit {0}) × Transaction E
  unfolding lift
  delc key chk t = writing t (after t (E.delc key chk t.tx))

  unfoldable pub scan : Key → Key → ℕ → Transaction E → Result (List (Key × Val)) × Transaction E
  unfolding lift
  scan min max limit t = reading t (after t (E.scan min max limit t.tx))
