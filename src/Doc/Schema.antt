-- ===== src/Doc/Schema.antt =====
-- lib/src/doc/document.rs: the definitions that a record is processed with.
use surreal_dbservice.Base.{String, Bool, none, some, List, if◌then◌else◌}
use surreal_dbservice.Err.{ok, err, tb_not_found}
use surreal_dbservice.Kvs.Engine.{Engine}
use surreal_dbservice.Kvs.Definitions.{Codec, Outcome}
use surreal_dbservice.Kvs.Definitions.One.{get_and_cache_tb}
use surreal_dbservice.Kvs.Definitions.All.{all_ft, all_ev, all_fd, all_ix}
use surreal_dbservice.Kvs.Definitions.Add.{
  is_tb_not_found, add_and_cache_ns, add_and_cache_db, add_and_cache_tb,
}
use surreal_dbservice.Keys.{Storekey}
use surreal_dbservice.Dbs.Auth
use surreal_dbservice.Dbs.Auth.{db_level}
use surreal_dbservice.Dbs.Options.{Options}
use surreal_dbservice.Sql.Definition.{Parts, catalog, Table, Event, Field, Index}
use surreal_dbservice.Sql.Run.{Run, ◌>>=◌, the}
use surreal_dbservice.Doc.{Document}

module _ {E : Engine} (K : Storekey) (Q : Parts) (D : Codec (catalog Q)) where
  abbrev pub make_tb : String → String → String → Bool → Run E (catalog Q) (Table Q)
  make_tb ns db tb strict = add_and_cache_ns K D ns strict >>= λ _.
      add_and_cache_db K D ns db strict >>= λ _. add_and_cache_tb K D ns db tb strict

  -- a table that is not there is made, if the authentication is that of the database
  abbrev pub tb_or_make :
      String
      → String
      → String
      → Options
      → Outcome E (catalog Q) (Table Q)
      → Outcome E (catalog Q) (Table Q)
  tb_or_make ns db tb o none = none
  tb_or_make ns db tb o (some (ok v, t)) = some (ok v, t)
  tb_or_make ns db tb o (some (err e, t)) =
      if is_tb_not_found e
      then if Auth.check o.auth db_level
        then make_tb ns db tb o.strict t
        else some (err tb_not_found, t)
      else some (err e, t)

  unfoldable pub tb : Document K Q.Value → Options → Run E (catalog Q) (Table Q)
  unfolding get_and_cache_tb add_and_cache_ns add_and_cache_db add_and_cache_tb Auth.check
  tb d o = do
    ns ← the o.ns
    db ← the o.db
    rid ← the d.id
    λ t. tb_or_make ns db rid.tb o (get_and_cache_tb K D ns db rid.tb t)

  unfoldable pub ft : Document K Q.Value → Options → Run E (catalog Q) (List (Table Q))
  unfolding all_ft
  ft d o = do id ← the d.id; ns ← the o.ns; db ← the o.db; all_ft K D ns db id.tb

  unfoldable pub ev : Document K Q.Value → Options → Run E (catalog Q) (List (Event Q))
  unfolding all_ev
  ev d o = do id ← the d.id; ns ← the o.ns; db ← the o.db; all_ev K D ns db id.tb

  unfoldable pub fd : Document K Q.Value → Options → Run E (catalog Q) (List (Field Q))
  unfolding all_fd
  fd d o = do id ← the d.id; ns ← the o.ns; db ← the o.db; all_fd K D ns db id.tb

  unfoldable pub ix : Document K Q.Value → Options → Run E (catalog Q) (List (Index Q))
  unfolding all_ix
  ix d o = do id ← the d.id; ns ← the o.ns; db ← the o.db; all_ix K D ns db id.tb
