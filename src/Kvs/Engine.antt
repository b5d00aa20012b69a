-- ===== src/Kvs/Engine.antt =====
-- The third-party store `echodb`, which lib/src/kvs/mem and lib/src/kvs/file wrap, as a parameter:
-- `Db` is the shared store, `Tx` a transaction on it. Only `commit` and `cancel` are given the store.
-- lib/src/kvs/kv.rs: keys and values are vectors of bytes.
use surreal_dbservice.Base.{ℕ, String, Bool, true, false, List, Option}
use surreal_dbservice.Err.{Error, Result, ok, err, tx, tx_key_already_exists}

abbrev pub Key : Type 0
Key = List ℕ

abbrev pub Val : Type 0
Val = List ℕ

-- `echodb::err::Error`: the case that lib/src/err/mod.rs tells apart, and the text of the others
pub data EngineError : Type 0 where
  key_already_exists : EngineError
  other : String → EngineError

pub data Reply (A : Type 0) : Type 0 where
  good : A → Reply A
  bad : EngineError → Reply A

abbrev pub is_good : {A : Type 0} → Reply A → Bool
is_good (good _) = true
is_good (bad _) = false

-- `From<echodb::err::Error> for Error`
unfoldable pub error_of : EngineError → Error
error_of key_already_exists = tx_key_already_exists
error_of (other text) = tx text

-- the `?` on a call of the engine
unfoldable pub lift : {A : Type 0} → Reply A → Result A
unfolding error_of
lift (good a) = ok a
lift (bad e) = err (error_of e)

pub record Engine : Type 1 where
  pub Db : Type 0
  pub Tx : Type 0
  -- the text of `KeyAlreadyExists`
  pub exists_text : String
  pub begin : Bool → Db → Reply Tx
  pub cancel : Tx → Db → Reply (Unit {0}) × Tx × Db
  pub commit : Tx → Db → Reply (Unit {0}) × Tx × Db
  pub exi : Key → Tx → Reply Bool × Tx
  pub get : Key → Tx → Reply (Option Val) × Tx
  pub set : Key → Val → Tx → Reply (Unit {0}) × Tx
  pub put : Key → Val → Tx → Reply (Unit {0}) × Tx
  pub putc : Key → Val → Option Val → Tx → Reply (Unit {0}) × Tx
  pub del : Key → Tx → Reply (Unit {0}) × Tx
  pub delc : Key → Option Val → Tx → Reply (Unit {0}) × Tx
  pub scan : Key → Key → ℕ → Tx → Reply (List (Key × Val)) × Tx
