-- ===== src/Tests/Dbs.antt =====
-- lib/src/dbs/auth.rs and options.rs at concrete options.
use surreal_dbservice.Base.{String, ◌≡◌, ◌↔◌, ◌≤◌, some}
use surreal_dbservice.Err.{ok}
use surreal_dbservice.Dbs.Auth.{Auth, db_auth}
use surreal_dbservice.Dbs.Auth.Ladder.{grants}
use surreal_dbservice.Dbs.Options
use surreal_dbservice.Dbs.Options.{Options, max_recursive_queries, get_ns, get_db, needs}
use surreal_dbservice.Dbs.Options.Guards.{admit_db, admit_db_iff}

abbrev editor : Auth
editor = db_auth "test" "test"

abbrev selected : Options
selected = record (Options.new editor) { ns = some "test"; db = some "test" }

admit_db_iff_example : (admit_db selected ≡ ok tt) ↔ (
    (ns : String) × (db : String) × (get_ns selected ≡ some ns)
    × (get_db selected ≡ some db)
    × (2 ≤ grants selected.auth))
admit_db_iff_example = admit_db_iff selected
