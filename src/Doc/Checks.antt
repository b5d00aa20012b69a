-- ===== src/Doc/Checks.antt =====
-- lib/src/doc: exist.rs, empty.rs, check.rs and allow.rs, which end the processing of a record.
use surreal_dbservice.Base.{Bool, false, not, ◌&&◌, Option, none, some, is_some, if◌then◌else◌}
use surreal_dbservice.Err.{ignore, record_exists}
use surreal_dbservice.Kvs.Engine.{Engine}
use surreal_dbservice.Kvs.Definitions.{Codec}
use surreal_dbservice.Keys.{Storekey}
use surreal_dbservice.Ctx.{Context}
use surreal_dbservice.Dbs.Auth
use surreal_dbservice.Dbs.Options.{Options, with_perms}
use surreal_dbservice.Sql.Definition.{Parts, catalog}
use surreal_dbservice.Sql.Permission.{
  Permission, Permissions, no_permission, full_permission, specific,
}
use surreal_dbservice.Sql.Run.{Run, ◌>>=◌, pure, fail}
use surreal_dbservice.Doc.{Document, Thing, Statement, World, is_new, is_delete, is_select, conds}
use surreal_dbservice.Doc.Schema.{tb}

module _ {E : Engine} {K : Storekey} {Q : Parts} (D : Codec (catalog Q)) (W : World E K Q) where
  abbrev pub exist_id : Option (Thing K) → Document K Q.Value → Run E (catalog Q) (Unit {0})
  exist_id none d = pure tt
  exist_id (some id) d =
      if not (W.is_none d.current) then fail (record_exists (W.thing_text id)) else pure tt

  unfoldable pub exist : Document K Q.Value → Run E (catalog Q) (Unit {0})
  exist d = exist_id d.id d

  unfoldable pub empty : Document K Q.Value → Run E (catalog Q) (Unit {0})
  empty d = if is_some d.id && W.is_none d.current then fail ignore else pure tt

  -- the condition of a WHERE clause, or of a permission, on the record as it is now
  abbrev pub require :
      Q.Value → Context Q.Value → Options → Document K Q.Value → Run E (catalog Q) (Unit {0})
  require e ctx o d = do
    v ← W.compute e ctx o d.current
    if not (W.is_truthy v) then fail ignore else pure tt

  abbrev pub check_cond :
      Option Q.Value → Context Q.Value → Options → Document K Q.Value → Run E (catalog Q) (Unit {0})
  check_cond none ctx o d = pure tt
  check_cond (some cond) ctx o d = require cond ctx o d

  unfoldable pub check :
      Context Q.Value
      → Options
      → Statement Q.Idiom Q.Value W.Fields
      → Document K Q.Value
      → Run E (catalog Q) (Unit {0})
  check ctx o s d = check_cond (conds s) ctx o d

  unfoldable pub clause_of :
      Statement Q.Idiom Q.Value W.Fields
      → Document K Q.Value
      → Permissions Q.Value
      → Permission Q.Value
  clause_of s d p =
      if is_delete s
      then p.delete
      else if is_select s
      then p.select
      else if is_new W d
      then p.create
      else p.update

  unfoldable pub allow_by :
      Permission Q.Value
      → Context Q.Value
      → Options
      → Document K Q.Value
      → Run E (catalog Q) (Unit {0})
  allow_by no_permission ctx o d = fail ignore
  allow_by full_permission ctx o d = pure tt
  allow_by (specific e) ctx o d = require e ctx (with_perms false o) d

  -- permissions count for a record, unless they are switched off or the authentication is above them
  unfoldable pub guarded_by_perms : Options → Document K Q.Value → Bool
  unfolding Auth.perms
  guarded_by_perms o d = o.perms && Auth.perms o.auth && is_some d.id

  unfoldable pub allow :
      Context Q.Value
      → Options
      → Statement Q.Idiom Q.Value W.Fields
      → Document K Q.Value
      → Run E (catalog Q) (Unit {0})
  unfolding guarded_by_perms tb clause_of allow_by
  allow ctx o s d =
      let asked : Run E (catalog Q) (Unit {0}) = do
        t ← tb K Q D d o
        allow_by (clause_of s d t.permissions) ctx o d
      in if guarded_by_perms o d then asked else pure tt
