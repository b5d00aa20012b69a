-- ===== src/Kvs/Definitions/Add.antt =====
-- lib/src/kvs/tx.rs: the functions `add_…` and `add_and_cache_…`, which store a definition with a name
-- and no more where there is none.
use surreal_dbservice.Base.{String, Bool, true, false}
use surreal_dbservice.Err.{Error, Result, ns_not_found, db_not_found, tb_not_found}
use surreal_dbservice.Kvs.Engine.{Engine}
use surreal_dbservice.Kvs.Cache.{Catalog}
use surreal_dbservice.Kvs.Tx.{Transaction}
use surreal_dbservice.Keys.{Storekey, encode}
use surreal_dbservice.Keys.Ns
use surreal_dbservice.Keys.Db
use surreal_dbservice.Keys.Tb
use surreal_dbservice.Kvs.Definitions.{Codec, Outcome, add_of, add_cached}
use surreal_dbservice.Kvs.Definitions.One.{
  get_ns, get_db, get_tb, get_and_cache_ns, get_and_cache_db, get_and_cache_tb,
}

abbrev pub is_ns_not_found : Error → Bool
is_ns_not_found ns_not_found = true
is_ns_not_found _ = false

abbrev pub is_db_not_found : Error → Bool
is_db_not_found db_not_found = true
is_db_not_found _ = false

abbrev pub is_tb_not_found : Error → Bool
is_tb_not_found tb_not_found = true
is_tb_not_found _ = false

module _ {E : Engine} {C : Catalog} (K : Storekey) (D : Codec C) where
  unfoldable pub add_ns : String → Bool → Transaction E C → Result C.Namespace × Transaction E C
  unfolding add_of encode get_ns
  add_ns ns strict t =
      add_of (encode (Ns.new K ns)) is_ns_not_found strict D.encode_namespace (D.new_namespace ns)
        (get_ns K D ns t)

  unfoldable pub add_and_cache_ns : String → Bool → Transaction E C → Outcome E C C.Namespace
  unfolding add_of encode get_and_cache_ns
  add_and_cache_ns ns strict t =
      add_cached (encode (Ns.new K ns)) is_ns_not_found strict D.encode_namespace
        (D.new_namespace ns) (get_and_cache_ns K D ns t)

  unfoldable pub add_db :
      String → String → Bool → Transaction E C → Result C.Database × Transaction E C
  unfolding add_of encode get_db
  add_db ns db strict t =
      add_of (encode (Db.new K ns db)) is_db_not_found strict D.encode_database (D.new_database db)
        (get_db K D ns db t)

  unfoldable pub add_and_cache_db :
      String → String → Bool → Transaction E C → Outcome E C C.Database
  unfolding add_of encode get_and_cache_db
  add_and_cache_db ns db strict t =
      add_cached (encode (Db.new K ns db)) is_db_not_found strict D.encode_database
        (D.new_database db) (get_and_cache_db K D ns db t)

  unfoldable pub add_tb :
      String → String → String → Bool → Transaction E C → Result C.Table × Transaction E C
  unfolding add_of encode get_tb
  add_tb ns db tb strict t =
      add_of (encode (Tb.new K ns db tb)) is_tb_not_found strict D.encode_table (D.new_table tb)
        (get_tb K D ns db tb t)

  unfoldable pub add_and_cache_tb :
      String → String → String → Bool → Transaction E C → Outcome E C C.Table
  unfolding add_of encode get_and_cache_tb
  add_and_cache_tb ns db tb strict t =
      add_cached (encode (Tb.new K ns db tb)) is_tb_not_found strict D.encode_table (D.new_table tb)
        (get_and_cache_tb K D ns db tb t)
