-- ===== src/Dbs/Options.antt =====
-- lib/src/dbs/options.rs: what is passed down while the statements of a query are processed.
-- `Arc` shares without mutation, so the shared strings are plain ones.
pub mod Guards
use surreal_dbservice.Base.{
  ℕ, ◌+◌, String, Bool, true, false, not, ◌&&◌, Option, none, some, ltb, is_some, if◌then◌else◌,
}
use surreal_dbservice.Err.{
  Result, ok, err, too_many_subqueries, realtime_disabled, query_permissions, ns_empty, db_empty,
  ◌>>=◌, ◌>>◌,
}
use surreal_dbservice.Dbs.Auth
use surreal_dbservice.Dbs.Auth.{Auth, Level, no_auth, ns_level, db_level}

pub record Options : Type 0 where
  pub ns : Option String
  pub db : Option String
  pub auth : Auth
  pub dive : ℕ
  pub live : Bool
  pub debug : Bool
  pub force : Bool
  pub perms : Bool
  pub fields : Bool
  pub events : Bool
  pub tables : Bool
  pub strict : Bool
  pub futures : Bool

-- `cnf::MAX_RECURSIVE_QUERIES`
abbrev pub max_recursive_queries : ℕ
max_recursive_queries = 16

abbrev pub new : Auth → Options
new auth = record {
  ns = none;
  db = none;
  auth = auth;
  dive = 0;
  live = false;
  debug = false;
  force = false;
  perms = true;
  fields = true;
  events = true;
  tables = true;
  strict = false;
  futures = false;
}

abbrev pub default : Options
default = new no_auth

-- `Options::ns` and `Options::db` unwrap: `none` is a panic.
abbrev pub get_ns : Options → Option String
get_ns o = o.ns

abbrev pub get_db : Options → Option String
get_db o = o.db

unfoldable pub dive : Options → Result Options
dive o =
    if ltb o.dive max_recursive_queries
    then ok (record o { dive = o.dive + 1 })
    else err too_many_subqueries

abbrev pub with_debug : Bool → Options → Options
with_debug v o = record o { debug = v }

abbrev pub with_force : Bool → Options → Options
with_force v o = record o { force = v }

abbrev pub with_perms : Bool → Options → Options
with_perms v o = record o { perms = v }

abbrev pub with_fields : Bool → Options → Options
with_fields v o = record o { fields = v }

abbrev pub with_events : Bool → Options → Options
with_events v o = record o { events = v }

abbrev pub with_tables : Bool → Options → Options
with_tables v o = record o { tables = v }

abbrev pub with_import : Bool → Options → Options
with_import v o = record o { fields = not v; events = not v; tables = not v }

abbrev pub with_strict : Bool → Options → Options
with_strict v o = record o { strict = v }

abbrev pub with_futures : Bool → Options → Options
with_futures v o = record o { futures = v }

unfoldable pub realtime : Options → Result (Unit {0})
realtime o = if not o.live then err realtime_disabled else ok tt

unfoldable pub check : Options → Level → Result (Unit {0})
unfolding Auth.check
check o level = if not (Auth.check o.auth level) then err query_permissions else ok tt

-- `matches!(level, Level::Ns | Level::Db)`
abbrev pub wants_ns : Level → Bool
wants_ns ns_level = true
wants_ns db_level = true
wants_ns _ = false

-- `matches!(level, Level::Db)`
abbrev pub wants_db : Level → Bool
wants_db db_level = true
wants_db _ = false

unfoldable pub needs : Options → Level → Result (Unit {0})
needs o level =
    if not (is_some o.ns) && wants_ns level
    then err ns_empty
    else if not (is_some o.db) && wants_db level
    then err db_empty
    else ok tt
