-- ===== src/Tests/Denied.antt =====
-- The permissions of lib/src/doc/allow.rs on a concrete store.
use surreal_dbservice.Base.{String, ◌≡◌, refl, true, some}
use surreal_dbservice.Err.{ok, err, ignore}
use surreal_dbservice.Kvs.Cache
use surreal_dbservice.Kvs.Cache.{key_eq, tb_entry}
use surreal_dbservice.Keys.{encode}
use surreal_dbservice.Dbs.Auth
use surreal_dbservice.Dbs.Auth.{no_auth}
use surreal_dbservice.Dbs.Options
use surreal_dbservice.Dbs.Options.{Options}
use surreal_dbservice.Sql.Definition.{Table}
use surreal_dbservice.Sql.Permission.{full_permissions, no_permissions, specific}
use surreal_dbservice.Doc
use surreal_dbservice.Doc.{Document, Statement}
use surreal_dbservice.Doc.Known.{Known}
use surreal_dbservice.Doc.Checks.{check, clause_of, guarded_by_perms}
use surreal_dbservice.Doc.Denied.{
  denied_changes_nothing, delete_permission_sees_cleared, Refuses, started,
}
use surreal_dbservice.Doc.Process.{plain, delete, compute}
use surreal_dbservice.Tests.Keys.{demo}
use surreal_dbservice.Tests.Statements.{parts, codec, blank}
use surreal_dbservice.Tests.Doc.{world, ctx, warm, rename, alice}

-- a visitor, and a table that nobody but its owner may use
abbrev visitor : Options
visitor = record (Options.new no_auth) { ns = some "test"; db = some "test" }

abbrev closed : Table parts
closed = record (blank "person") { permissions = no_permissions }

closed-Known : Known demo parts "test" "test" alice visitor closed (warm closed)
unfolding Cache.get encode key_eq
closed-Known = record { ns_known = refl; db_known = refl; tb_known = refl }

rename-Refuses :
    Refuses codec world ctx visitor rename "test" "test" alice closed
      (warm closed)
      closed-Known
      (started (some alice) (plain "Alice"))
unfolding guarded_by_perms clause_of Auth.perms
rename-Refuses = (refl, refl, refl)

rename-passes :
    check codec world ctx visitor rename (started (some alice) (plain "Alice")) (warm closed)
    ≡ some (ok tt, warm closed)
unfolding check
rename-passes = refl

denied_changes_nothing_example :
    compute codec world ctx visitor rename (some alice) (plain "Alice") (warm closed)
    ≡ some (err ignore, warm closed)
denied_changes_nothing_example =
    denied_changes_nothing codec world ctx visitor rename "test" "test" alice closed (warm closed)
      closed-Known (some alice) (plain "Alice") "" refl rename-Refuses rename-passes refl

-- a deletion under a permission that asks whether there is a record
abbrev guarded : Table parts
guarded = record (blank "person") {
  permissions = record full_permissions { delete = specific "*" };
}

guarded-Known : Known demo parts "test" "test" alice visitor guarded (warm guarded)
unfolding Cache.get encode key_eq
guarded-Known = record { ns_known = refl; db_known = refl; tb_known = refl }

abbrev leave : Statement String String (Unit {0})
leave = record rename { verb = Doc.delete }

abbrev alice_here : Document demo String
alice_here = started (some alice) (plain "Alice")

leave-guarded : guarded_by_perms codec world visitor alice_here ≡ true
unfolding guarded_by_perms Auth.perms
leave-guarded = refl

leave-passes :
    check codec world ctx visitor leave alice_here (warm guarded) ≡ some (ok tt, warm guarded)
unfolding check
leave-passes = refl

delete_permission_sees_cleared_example :
    delete codec world ctx visitor leave alice_here (warm guarded) ≡ some (err ignore, warm guarded)
delete_permission_sees_cleared_example =
    delete_permission_sees_cleared codec world ctx visitor leave "test" "test" alice guarded
      (warm guarded) guarded-Known alice_here "*" "" "" refl refl leave-guarded refl leave-passes
      refl refl refl
