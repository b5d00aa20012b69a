-- ===== src/Err.antt =====
-- lib/src/err/mod.rs: the errors of the library. A payload of a third-party type (msgpack,
-- storekey) and an idiom are kept as their text.
use Prim.Native.Nat.{ℕ}
use Prim.Native.String.{String}

pub data Error : Type 0 where
  ignore : Error
  ds : String → Error
  tx : String → Error
  tx_finished tx_readonly tx_condition_not_met tx_key_already_exists : Error
  ns_empty db_empty query_empty : Error
  invalid_query : ℕ → ℕ → String → Error
  invalid_patch : String → Error
  http_disabled : Error
  invalid_script : String → Error
  invalid_arguments : String → String → Error
  query_timedout query_cancelled query_not_executed query_permissions : Error
  ns_not_allowed : String → Error
  db_not_allowed : String → Error
  ns_not_found nt_not_found nl_not_found db_not_found dt_not_found dl_not_found : Error
  sc_not_found st_not_found tb_not_found : Error
  realtime_disabled too_many_subqueries : Error
  create_statement update_statement relate_statement delete_statement : String → Error
  insert_statement live_statement kill_statement : String → Error
  table_permissions table_is_view : String → Error
  record_exists : String → Error
  index_exists : String → String → Error
  field_value : String → String → String → Error
  id_invalid : String → Error
  http channel serde encode decode : String → Error

-- Rust's `Result<A, Error>`.
pub data Result {ℓ} (A : Type ℓ) : Type ℓ where
  ok : A → Result A
  err : Error → Result A

-- the `?` operator: the rest runs on a success
infixl 10 ◌>>=◌
abbrev pub ◌>>=◌ {ℓ κ} : {V : Type ℓ} {W : Type κ} → Result V → (V → Result W) → Result W
err e >>= rest = err e
ok v >>= rest = rest v

infixl 10 ◌>>◌
abbrev pub ◌>>◌ {ℓ} : {W : Type ℓ} → Result (Unit {0}) → Result W → Result W
first >> second = first >>= λ _. second

-- two checks, one after the other
abbrev pub both : Result (Unit {0}) → Result (Unit {0}) → Result (Unit {0})
both first second = first >> second
