-- ===== src/Sql/Statements/Define.antt =====
-- lib/src/sql/statements/define.rs: the functions `compute`.
pub mod Guards
pub mod Stored
pub mod Correct
use surreal_dbservice.Base.{String, Option, none, some, true}
use surreal_dbservice.Kvs.Engine.{Engine}
use surreal_dbservice.Kvs.Tx.{set}
use surreal_dbservice.Kvs.Batch.{delp, delr}
use surreal_dbservice.Kvs.Definitions.{Codec, u32_max}
use surreal_dbservice.Kvs.Definitions.Add.{add_ns, add_db, add_tb}
use surreal_dbservice.Keys.{Storekey, encode}
use surreal_dbservice.Keys
use surreal_dbservice.Dbs.Auth.{kv_level, ns_level, db_level}
use surreal_dbservice.Dbs.Options
use surreal_dbservice.Dbs.Options.{Options, needs, with_force}
use surreal_dbservice.Sql.Definition.{
  Parts, Encoder, catalog, Base, kv_base, ns_base, db_base, Namespace, Database, Login, Token,
  Scope, Table, View, Event, Field, Index,
}
use surreal_dbservice.Sql.Run.{Run, ◌>>=◌, ◌>>◌, checked, call, call_, the, panic, pure, for_each}

-- `DefineStatement`
pub data Define (Q : Parts) : Type 0 where
  namespace : Namespace → Define Q
  database : Database → Define Q
  login : Login → Define Q
  token : Token → Define Q
  scope : Scope Q → Define Q
  table : Table Q → Define Q
  event : Event Q → Define Q
  field : Field Q → Define Q
  index : Index Q → Define Q

module _ {E : Engine} (K : Storekey) (Q : Parts) (D : Codec (catalog Q)) (W : Encoder Q)
    (update : String → Options → Run E (catalog Q) (Unit {0})) where
  unfoldable pub define_namespace : Namespace → Options → Run E (catalog Q) (Unit {0})
  unfolding needs Options.check set encode
  define_namespace s o = do
    checked (needs o kv_level)
    checked (Options.check o kv_level)
    call (set (encode (Keys.Ns.new K s.name)) (D.encode_namespace s))

  unfoldable pub define_database : Database → Options → Run E (catalog Q) (Unit {0})
  unfolding needs Options.check set encode add_ns
  define_database s o = do
    checked (needs o ns_level)
    checked (Options.check o ns_level)
    ns ← the o.ns
    call_ (add_ns K D ns o.strict)
    call (set (encode (Keys.Db.new K ns s.name)) (D.encode_database s))

  unfoldable pub define_login_ns : Login → Options → Run E (catalog Q) (Unit {0})
  unfolding needs Options.check set encode add_ns
  define_login_ns s o = do
    checked (needs o ns_level)
    checked (Options.check o kv_level)
    ns ← the o.ns
    call_ (add_ns K D ns o.strict)
    call (set (encode (Keys.Nl.new K ns s.name)) (W.encode_login s))

  unfoldable pub define_login_db : Login → Options → Run E (catalog Q) (Unit {0})
  unfolding needs Options.check set encode add_ns add_db
  define_login_db s o = do
    checked (needs o db_level)
    checked (Options.check o ns_level)
    ns ← the o.ns
    db ← the o.db
    call_ (add_ns K D ns o.strict)
    call_ (add_db K D ns db o.strict)
    call (set (encode (Keys.Dl.new K ns db s.name)) (W.encode_login s))

  -- the base is NAMESPACE or DATABASE: any other is `unreachable!()`
  abbrev pub define_login_on : Base → Login → Options → Run E (catalog Q) (Unit {0})
  define_login_on ns_base s o = define_login_ns s o
  define_login_on db_base s o = define_login_db s o
  define_login_on kv_base s o = panic

  unfoldable pub define_login : Login → Options → Run E (catalog Q) (Unit {0})
  unfolding define_login_ns define_login_db
  define_login s o = define_login_on s.base s o

  unfoldable pub define_token_ns : Token → Options → Run E (catalog Q) (Unit {0})
  unfolding needs Options.check set encode add_ns
  define_token_ns s o = do
    checked (needs o ns_level)
    checked (Options.check o kv_level)
    ns ← the o.ns
    call_ (add_ns K D ns o.strict)
    call (set (encode (Keys.Nt.new K ns s.name)) (W.encode_token s))

  unfoldable pub define_token_db : Token → Options → Run E (catalog Q) (Unit {0})
  unfolding needs Options.check set encode add_ns add_db
  define_token_db s o = do
    checked (needs o db_level)
    checked (Options.check o ns_level)
    ns ← the o.ns
    db ← the o.db
    call_ (add_ns K D ns o.strict)
    call_ (add_db K D ns db o.strict)
    call (set (encode (Keys.Dt.new K ns db s.name)) (W.encode_token s))

  -- the base is NAMESPACE or DATABASE: any other is `unreachable!()`
  abbrev pub define_token_on : Base → Token → Options → Run E (catalog Q) (Unit {0})
  define_token_on ns_base s o = define_token_ns s o
  define_token_on db_base s o = define_token_db s o
  define_token_on kv_base s o = panic

  unfoldable pub define_token : Token → Options → Run E (catalog Q) (Unit {0})
  unfolding define_token_ns define_token_db
  define_token s o = define_token_on s.base s o

  unfoldable pub define_scope : Scope Q → Options → Run E (catalog Q) (Unit {0})
  unfolding needs Options.check set encode add_ns add_db
  define_scope s o = do
    checked (needs o db_level)
    checked (Options.check o db_level)
    ns ← the o.ns
    db ← the o.db
    call_ (add_ns K D ns o.strict)
    call_ (add_db K D ns db o.strict)
    call (set (encode (Keys.Sc.new K ns db s.name)) (W.encode_scope s))

  -- the tables that a view reads are marked, and then processed again
  abbrev pub define_view :
      String → String → Table Q → Options → Option (View Q) → Run E (catalog Q) (Unit {0})
  define_view ns db s o none = pure tt
  define_view ns db s o (some view) = do
    delp (encode (Keys.Table.new K ns db s.name)) u32_max
    for_each (λ v. call (set (encode (Keys.Ft.new K ns db v s.name)) (D.encode_table s))) view.what
    for_each (λ v. update v (with_force true o)) view.what

  unfoldable pub define_table : Table Q → Options → Run E (catalog Q) (Unit {0})
  unfolding needs Options.check set encode add_ns add_db delp
  define_table s o = do
    checked (needs o db_level)
    checked (Options.check o db_level)
    ns ← the o.ns
    db ← the o.db
    call_ (add_ns K D ns o.strict)
    call_ (add_db K D ns db o.strict)
    call (set (encode (Keys.Tb.new K ns db s.name)) (D.encode_table s))
    define_view ns db s o s.view

  unfoldable pub define_event : Event Q → Options → Run E (catalog Q) (Unit {0})
  unfolding needs Options.check set encode add_ns add_db add_tb
  define_event s o = do
    checked (needs o db_level)
    checked (Options.check o db_level)
    ns ← the o.ns
    db ← the o.db
    call_ (add_ns K D ns o.strict)
    call_ (add_db K D ns db o.strict)
    call_ (add_tb K D ns db s.what o.strict)
    call (set (encode (Keys.Ev.new K ns db s.what s.name)) (W.encode_event s))

  unfoldable pub define_field : Field Q → Options → Run E (catalog Q) (Unit {0})
  unfolding needs Options.check set encode add_ns add_db add_tb
  define_field s o = do
    checked (needs o db_level)
    checked (Options.check o db_level)
    ns ← the o.ns
    db ← the o.db
    call_ (add_ns K D ns o.strict)
    call_ (add_db K D ns db o.strict)
    call_ (add_tb K D ns db s.what o.strict)
    call (set (encode (Keys.Fd.new K ns db s.what (Q.idiom_text s.name))) (W.encode_field s))

  unfoldable pub define_index : Index Q → Options → Run E (catalog Q) (Unit {0})
  unfolding needs Options.check set encode add_ns add_db add_tb delr
  define_index s o = do
    checked (needs o db_level)
    checked (Options.check o db_level)
    ns ← the o.ns
    db ← the o.db
    call_ (add_ns K D ns o.strict)
    call_ (add_db K D ns db o.strict)
    call_ (add_tb K D ns db s.what o.strict)
    call (set (encode (Keys.Ix.new K ns db s.what s.name)) (W.encode_index s))
    delr (Keys.Index.prefix K ns db s.what s.name) (Keys.Index.suffix K ns db s.what s.name) u32_max
    update s.what o

  -- `DefineStatement::compute`
  unfoldable pub define : Define Q → Options → Run E (catalog Q) (Unit {0})
  unfolding define_namespace define_database define_login define_token define_scope define_table
      define_event define_field define_index
  define (namespace s) o = define_namespace s o
  define (database s) o = define_database s o
  define (login s) o = define_login s o
  define (token s) o = define_token s o
  define (scope s) o = define_scope s o
  define (table s) o = define_table s o
  define (event s) o = define_event s o
  define (field s) o = define_field s o
  define (index s) o = define_index s o
