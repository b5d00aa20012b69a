-- ===== src/Sql/Statements/Remove/Guards.antt =====
-- The guards of lib/src/sql/statements/remove.rs, and that its statements end.
use surreal_dbservice.Base.{◌≡◌, Option, some, Returns, returned, is_some, true}
use surreal_dbservice.Err.{err, Error}
use surreal_dbservice.Kvs.Engine.{Engine}
use surreal_dbservice.Kvs.Cache.{Catalog}
use surreal_dbservice.Kvs.Laws.{ScanBound}
use surreal_dbservice.Kvs.Tx.{Transaction}
use surreal_dbservice.Kvs.Batch.Termination.{delr-Returns, delp-Returns}
use surreal_dbservice.Kvs.Tx.{del}
use surreal_dbservice.Kvs.Batch.{delp, delr}
use surreal_dbservice.Kvs.Definitions.{u32_max}
use surreal_dbservice.Keys
use surreal_dbservice.Keys.{Storekey, encode}
use surreal_dbservice.Dbs.Auth.{Level, kv_level, ns_level, db_level}
use surreal_dbservice.Dbs.Options
use surreal_dbservice.Dbs.Options.{Options, needs}
use surreal_dbservice.Sql.Definition.{kv_base, ns_base, db_base}
use surreal_dbservice.Sql.Run.Rules.{guarded-err, Returns-guarded, Returns-call}
use surreal_dbservice.Sql.Statements.Define.Guards.{levels_on, permitted}
use surreal_dbservice.Sql.Statements.Selected.{with_ns, with_db}
use surreal_dbservice.Sql.Statements.Remove.{
  Remove, namespace, database, login, token, scope, table, event, field, index, remove,
}

unfoldable pub levels : Remove → Option (Level × Level)
levels (namespace name) = some (kv_level, kv_level)
levels (database name) = some (ns_level, ns_level)
levels (login name base) = levels_on base
levels (token name base) = levels_on base
levels (scope name) = some (db_level, db_level)
levels (table name) = some (db_level, db_level)
levels (event name what) = some (db_level, db_level)
levels (field name what) = some (db_level, db_level)
levels (index name what) = some (db_level, db_level)

module _ {E : Engine} {C : Catalog} (K : Storekey) where
  -- A REMOVE statement whose selection or authorisation is refused answers with that error and
  -- leaves the transaction as it was.
  pub remove_refused :
      (d : Remove) (o : Options) (t : Transaction E C) (e : Error)
      → permitted (levels d) o ≡ err e
      → remove K d o t ≡ some (err e, t)
  unfolding levels remove
  remove_refused (login name kv_base) o t e h = cc
  remove_refused (login name ns_base) o t e h =
      guarded-err (needs o ns_level) (Options.check o kv_level) _ t e h
  remove_refused (login name db_base) o t e h =
      guarded-err (needs o db_level) (Options.check o ns_level) _ t e h
  remove_refused (token name kv_base) o t e h = cc
  remove_refused (token name ns_base) o t e h =
      guarded-err (needs o ns_level) (Options.check o kv_level) _ t e h
  remove_refused (token name db_base) o t e h =
      guarded-err (needs o db_level) (Options.check o ns_level) _ t e h
  remove_refused (namespace name) o t e h =
      guarded-err (needs o kv_level) (Options.check o kv_level) _ t e h
  remove_refused (database name) o t e h =
      guarded-err (needs o ns_level) (Options.check o ns_level) _ t e h
  remove_refused (scope name) o t e h =
      guarded-err (needs o db_level) (Options.check o db_level) _ t e h
  remove_refused (table name) o t e h =
      guarded-err (needs o db_level) (Options.check o db_level) _ t e h
  remove_refused (event name what) o t e h =
      guarded-err (needs o db_level) (Options.check o db_level) _ t e h
  remove_refused (field name what) o t e h =
      guarded-err (needs o db_level) (Options.check o db_level) _ t e h
  remove_refused (index name what) o t e h =
      guarded-err (needs o db_level) (Options.check o db_level) _ t e h

  -- Every REMOVE statement that parses ends without a panic on every store that returns no more pairs
  -- than it is asked for: behind the guards the selected namespace and database are there, the
  -- deletions end, and they do not count below 0.
  pub remove-Returns :
      (B : ScanBound E) (d : Remove) (o : Options) (t : Transaction E C)
      → is_some (levels d) ≡ true
      → Returns (remove K d o t)
  unfolding levels remove
  remove-Returns B (login name kv_base) o t h = cc
  remove-Returns B (login name ns_base) o t h =
      Returns-guarded (needs o ns_level) (Options.check o kv_level) _ t
        (λ h'. with_ns o _ t h' (λ ns. returned _))
  remove-Returns B (login name db_base) o t h =
      Returns-guarded (needs o db_level) (Options.check o ns_level) _ t
        (λ h'. with_db o _ t h' (λ ns db. returned _))
  remove-Returns B (token name kv_base) o t h = cc
  remove-Returns B (token name ns_base) o t h =
      Returns-guarded (needs o ns_level) (Options.check o kv_level) _ t
        (λ h'. with_ns o _ t h' (λ ns. returned _))
  remove-Returns B (token name db_base) o t h =
      Returns-guarded (needs o db_level) (Options.check o ns_level) _ t
        (λ h'. with_db o _ t h' (λ ns db. returned _))
  remove-Returns B (namespace name) o t h =
      Returns-guarded (needs o kv_level) (Options.check o kv_level) _ t (λ h'.
        Returns-call (del (encode (Keys.Ns.new K name)))
          (delp (encode (Keys.Namespace.new K name)) u32_max) t
          (λ t2. delp-Returns B (encode (Keys.Namespace.new K name)) u32_max t2))
  remove-Returns B (database name) o t h =
      Returns-guarded (needs o ns_level) (Options.check o ns_level) _ t (λ h'.
        with_ns o _ t h' (λ ns.
          Returns-call (del (encode (Keys.Db.new K ns name)))
            (delp (encode (Keys.Database.new K ns name)) u32_max) t
            (λ t2. delp-Returns B (encode (Keys.Database.new K ns name)) u32_max t2)))
  remove-Returns B (scope name) o t h =
      Returns-guarded (needs o db_level) (Options.check o db_level) _ t
        (λ h'. with_db o _ t h' (λ ns db. returned _))
  remove-Returns B (table name) o t h =
      Returns-guarded (needs o db_level) (Options.check o db_level) _ t (λ h'.
        with_db o _ t h' (λ ns db.
          Returns-call (del (encode (Keys.Tb.new K ns db name)))
            (delp (encode (Keys.Table.new K ns db name)) u32_max) t
            (λ t2. delp-Returns B (encode (Keys.Table.new K ns db name)) u32_max t2)))
  remove-Returns B (event name what) o t h =
      Returns-guarded (needs o db_level) (Options.check o db_level) _ t
        (λ h'. with_db o _ t h' (λ ns db. returned _))
  remove-Returns B (field name what) o t h =
      Returns-guarded (needs o db_level) (Options.check o db_level) _ t
        (λ h'. with_db o _ t h' (λ ns db. returned _))
  remove-Returns B (index name what) o t h =
      Returns-guarded (needs o db_level) (Options.check o db_level) _ t (λ h'.
        with_db o _ t h' (λ ns db.
          Returns-call (del (encode (Keys.Ix.new K ns db what name)))
            (delr (Keys.Index.prefix K ns db what name) (Keys.Index.suffix K ns db what name)
              u32_max)
            t
            (λ t2.
              delr-Returns B (Keys.Index.prefix K ns db what name)
                (Keys.Index.suffix K ns db what name) u32_max t2)))
