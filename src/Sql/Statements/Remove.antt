-- ===== src/Sql/Statements/Remove.antt =====
-- lib/src/sql/statements/remove.rs: the functions `compute`.
pub mod Guards
pub mod Erased
use surreal_dbservice.Base.{String}
use surreal_dbservice.Kvs.Engine.{Engine}
use surreal_dbservice.Kvs.Cache.{Catalog}
use surreal_dbservice.Kvs.Tx.{del}
use surreal_dbservice.Kvs.Batch.{delp, delr}
use surreal_dbservice.Kvs.Definitions.{u32_max}
use surreal_dbservice.Keys.{Storekey, encode}
use surreal_dbservice.Keys
use surreal_dbservice.Dbs.Auth.{kv_level, ns_level, db_level}
use surreal_dbservice.Dbs.Options
use surreal_dbservice.Dbs.Options.{Options, needs}
use surreal_dbservice.Sql.Definition.{Base, kv_base, ns_base, db_base}
use surreal_dbservice.Sql.Run.{Run, ◌>>=◌, ◌>>◌, checked, call, the, panic}

-- `RemoveStatement`, with the fields of its statements
pub data Remove : Type 0 where
  namespace database scope table : String → Remove
  login token : String → Base → Remove
  -- the name and the table
  event field index : String → String → Remove

module _ {E : Engine} {C : Catalog} (K : Storekey) where
  unfoldable pub remove_namespace : String → Options → Run E C (Unit {0})
  unfolding needs Options.check del encode delp
  remove_namespace name o = do
    checked (needs o kv_level)
    checked (Options.check o kv_level)
    call (del (encode (Keys.Ns.new K name)))
    delp (encode (Keys.Namespace.new K name)) u32_max

  unfoldable pub remove_database : String → Options → Run E C (Unit {0})
  unfolding needs Options.check del encode delp
  remove_database name o = do
    checked (needs o ns_level)
    checked (Options.check o ns_level)
    ns ← the o.ns
    call (del (encode (Keys.Db.new K ns name)))
    delp (encode (Keys.Database.new K ns name)) u32_max

  unfoldable pub remove_login : String → Base → Options → Run E C (Unit {0})
  unfolding needs Options.check del encode
  remove_login name ns_base o = do
    checked (needs o ns_level)
    checked (Options.check o kv_level)
    ns ← the o.ns
    call (del (encode (Keys.Nl.new K ns name)))
  remove_login name db_base o = do
    checked (needs o db_level)
    checked (Options.check o ns_level)
    ns ← the o.ns
    db ← the o.db
    call (del (encode (Keys.Dl.new K ns db name)))
  remove_login name kv_base o = panic

  unfoldable pub remove_token : String → Base → Options → Run E C (Unit {0})
  unfolding needs Options.check del encode
  remove_token name ns_base o = do
    checked (needs o ns_level)
    checked (Options.check o kv_level)
    ns ← the o.ns
    call (del (encode (Keys.Nt.new K ns name)))
  remove_token name db_base o = do
    checked (needs o db_level)
    checked (Options.check o ns_level)
    ns ← the o.ns
    db ← the o.db
    call (del (encode (Keys.Dt.new K ns db name)))
  remove_token name kv_base o = panic

  unfoldable pub remove_scope : String → Options → Run E C (Unit {0})
  unfolding needs Options.check del encode
  remove_scope name o = do
    checked (needs o db_level)
    checked (Options.check o db_level)
    ns ← the o.ns
    db ← the o.db
    call (del (encode (Keys.Sc.new K ns db name)))

  unfoldable pub remove_table : String → Options → Run E C (Unit {0})
  unfolding needs Options.check del encode delp
  remove_table name o = do
    checked (needs o db_level)
    checked (Options.check o db_level)
    ns ← the o.ns
    db ← the o.db
    call (del (encode (Keys.Tb.new K ns db name)))
    delp (encode (Keys.Table.new K ns db name)) u32_max

  unfoldable pub remove_event : String → String → Options → Run E C (Unit {0})
  unfolding needs Options.check del encode
  remove_event name what o = do
    checked (needs o db_level)
    checked (Options.check o db_level)
    ns ← the o.ns
    db ← the o.db
    call (del (encode (Keys.Ev.new K ns db what name)))

  unfoldable pub remove_field : String → String → Options → Run E C (Unit {0})
  unfolding needs Options.check del encode
  remove_field name what o = do
    checked (needs o db_level)
    checked (Options.check o db_level)
    ns ← the o.ns
    db ← the o.db
    call (del (encode (Keys.Fd.new K ns db what name)))

  unfoldable pub remove_index : String → String → Options → Run E C (Unit {0})
  unfolding needs Options.check del encode delr
  remove_index name what o = do
    checked (needs o db_level)
    checked (Options.check o db_level)
    ns ← the o.ns
    db ← the o.db
    call (del (encode (Keys.Ix.new K ns db what name)))
    delr (Keys.Index.prefix K ns db what name) (Keys.Index.suffix K ns db what name) u32_max

  -- `RemoveStatement::compute`
  unfoldable pub remove : Remove → Options → Run E C (Unit {0})
  unfolding remove_namespace remove_database remove_login remove_token remove_scope remove_table
      remove_event remove_field remove_index
  remove (namespace name) o = remove_namespace name o
  remove (database name) o = remove_database name o
  remove (login name base) o = remove_login name base o
  remove (token name base) o = remove_token name base o
  remove (scope name) o = remove_scope name o
  remove (table name) o = remove_table name o
  remove (event name what) o = remove_event name what o
  remove (field name what) o = remove_field name what o
  remove (index name what) o = remove_index name what o
