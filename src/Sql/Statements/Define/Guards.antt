-- ===== src/Sql/Statements/Define/Guards.antt =====
-- The guards of lib/src/sql/statements/define.rs.
use surreal_dbservice.Base.{◌≡◌, Option, none, some, String}
use surreal_dbservice.Err.{Result, ok, err, Error, both}
use surreal_dbservice.Kvs.Engine.{Engine}
use surreal_dbservice.Kvs.Tx.{Transaction}
use surreal_dbservice.Kvs.Definitions.{Codec}
use surreal_dbservice.Keys.{Storekey}
use surreal_dbservice.Dbs.Auth.{Level, kv_level, ns_level, db_level}
use surreal_dbservice.Dbs.Options
use surreal_dbservice.Dbs.Options.{Options, needs}
use surreal_dbservice.Sql.Definition.{
  Parts, Encoder, catalog, Base, kv_base, ns_base, db_base, Login, Token,
}
use surreal_dbservice.Sql.Run.{Run}
use surreal_dbservice.Sql.Run.Rules.{guarded-err}
use surreal_dbservice.Sql.Statements.Define

-- What has to be selected and granted before a statement does anything; a login or a token of the
-- key-value store does not parse.
abbrev pub levels_on : Base → Option (Level × Level)
levels_on kv_base = none
levels_on ns_base = some (ns_level, kv_level)
levels_on db_base = some (db_level, ns_level)

unfoldable pub levels : {Q : Parts} → Define.Define Q → Option (Level × Level)
levels (Define.namespace s) = some (kv_level, kv_level)
levels (Define.database s) = some (ns_level, ns_level)
levels (Define.login s) = levels_on s.base
levels (Define.token s) = levels_on s.base
levels (Define.scope s) = some (db_level, db_level)
levels (Define.table s) = some (db_level, db_level)
levels (Define.event s) = some (db_level, db_level)
levels (Define.field s) = some (db_level, db_level)
levels (Define.index s) = some (db_level, db_level)

-- What is selected where the first guard passes: nothing, the namespace, or the database as well.
abbrev pub SelectedAt : Level → Options → String → String → Type 0
SelectedAt kv_level o ns db = Unit
SelectedAt ns_level o ns db = o.ns ≡ some ns
SelectedAt _ o ns db = (o.ns ≡ some ns) × (o.db ≡ some db)

abbrev pub AreSelected : Option (Level × Level) → Options → String → String → Type 0
AreSelected none o ns db = Unit
AreSelected (some (level, _)) o ns db = SelectedAt level o ns db

abbrev pub permitted : Option (Level × Level) → Options → Result (Unit {0})
permitted none o = ok tt
permitted (some (selected, granted)) o = both (needs o selected) (Options.check o granted)

module _ {E : Engine} (K : Storekey) (Q : Parts) (D : Codec (catalog Q)) (W : Encoder Q)
    (update : String → Options → Run E (catalog Q) (Unit {0})) where
  login_refused :
      (b : Base) (s : Login) (o : Options) (t : Transaction E (catalog Q)) (e : Error)
      → permitted (levels_on b) o ≡ err e
      → Define.define_login_on K Q D W update b s o t ≡ some (err e, t)
  unfolding Define.define_login_ns Define.define_login_db
  login_refused kv_base s o t e h = cc
  login_refused ns_base s o t e h =
      guarded-err (needs o ns_level) (Options.check o kv_level) _ t e h
  login_refused db_base s o t e h =
      guarded-err (needs o db_level) (Options.check o ns_level) _ t e h

  token_refused :
      (b : Base) (s : Token) (o : Options) (t : Transaction E (catalog Q)) (e : Error)
      → permitted (levels_on b) o ≡ err e
      → Define.define_token_on K Q D W update b s o t ≡ some (err e, t)
  unfolding Define.define_token_ns Define.define_token_db
  token_refused kv_base s o t e h = cc
  token_refused ns_base s o t e h =
      guarded-err (needs o ns_level) (Options.check o kv_level) _ t e h
  token_refused db_base s o t e h =
      guarded-err (needs o db_level) (Options.check o ns_level) _ t e h

  -- A DEFINE statement whose selection or authorisation is refused answers with that error and
  -- leaves the transaction as it was, whatever it would define.
  pub define_refused :
      (d : Define.Define Q) (o : Options) (t : Transaction E (catalog Q)) (e : Error)
      → permitted (levels d) o ≡ err e
      → Define.define K Q D W update d o t ≡ some (err e, t)
  unfolding levels Define.define
  define_refused (Define.namespace s) o t e h =
      guarded-err (needs o kv_level) (Options.check o kv_level) _ t e h
  define_refused (Define.database s) o t e h =
      guarded-err (needs o ns_level) (Options.check o ns_level) _ t e h
  define_refused (Define.login s) o t e h = login_refused s.base s o t e h
  define_refused (Define.token s) o t e h = token_refused s.base s o t e h
  define_refused (Define.scope s) o t e h =
      guarded-err (needs o db_level) (Options.check o db_level) _ t e h
  define_refused (Define.table s) o t e h =
      guarded-err (needs o db_level) (Options.check o db_level) _ t e h
  define_refused (Define.event s) o t e h =
      guarded-err (needs o db_level) (Options.check o db_level) _ t e h
  define_refused (Define.field s) o t e h =
      guarded-err (needs o db_level) (Options.check o db_level) _ t e h
  define_refused (Define.index s) o t e h =
      guarded-err (needs o db_level) (Options.check o db_level) _ t e h
