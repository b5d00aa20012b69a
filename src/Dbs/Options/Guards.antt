-- ===== src/Dbs/Options/Guards.antt =====
-- What the guards of lib/src/dbs/options.rs leave to the code behind them.
use surreal_dbservice.Base.{String, ◌≡◌, ◌≤◌, ◌↔◌, some, arith}
use surreal_dbservice.Err.{Result, ok, ◌>>◌}
use surreal_dbservice.Dbs.Auth.{db_level}
use surreal_dbservice.Dbs.Auth.Ladder.{grants, check-eq-leb}
use surreal_dbservice.Dbs.Options.{Options, get_ns, get_db, check, needs}

-- The two guards that stand before every database statement.
abbrev pub admit_db : Options → Result (Unit {0})
admit_db o = needs o db_level >> check o db_level

-- The two guards of a database statement pass exactly where a namespace and a database are selected,
-- so that the unwraps of `ns` and `db` behind them cannot panic, and the authentication grants the
-- database level.
pub admit_db_iff :
    (o : Options)
    → (admit_db o ≡ ok tt) ↔ (
        (ns : String) × (db : String) × (get_ns o ≡ some ns)
        × (get_db o ≡ some db)
        × (2 ≤ grants o.auth))
unfolding needs check
admit_db_iff o = (
  λ h. ground (arith, check-eq-leb o.auth db_level),
  λ (ns, db, hn, hd, h). ground (arith, check-eq-leb o.auth db_level),
)
