-- ===== src/Doc/Event.antt =====
-- lib/src/doc/event.rs: the events of a table.
use surreal_dbservice.Base.{String, false, not, List, [], ◌∷◌, if◌then◌else◌}
use surreal_dbservice.Kvs.Engine.{Engine}
use surreal_dbservice.Kvs.Definitions.{Codec}
use surreal_dbservice.Keys.{Storekey}
use surreal_dbservice.Ctx
use surreal_dbservice.Ctx.{Context, add_value}
use surreal_dbservice.Dbs.Options.{Options, with_perms}
use surreal_dbservice.Sql.Definition.{Parts, catalog, Event}
use surreal_dbservice.Sql.Run.{Run, ◌>>=◌, ◌>>◌, pure}
use surreal_dbservice.Doc.{Document, Statement, World, is_new, is_delete}
use surreal_dbservice.Doc.Schema.{ev}
use surreal_dbservice.Doc.Save.{when_changed}

module _ {E : Engine} {K : Storekey} {Q : Parts} (D : Codec (catalog Q)) (W : World E K Q) where
  abbrev pub event_name : Statement Q.Idiom Q.Value W.Fields → Document K Q.Value → String
  event_name s d = if is_delete s then "DELETE" else if is_new W d then "CREATE" else "UPDATE"

  abbrev pub event_context :
      Context Q.Value → Statement Q.Idiom Q.Value W.Fields → Document K Q.Value → Context Q.Value
  event_context ctx s d = add_value "before" d.initial (
      add_value "after" d.current (
        add_value "value" d.current
          (add_value "event" (W.strand (event_name s d)) (Ctx.new ctx W.flags).0)))

  abbrev pub run_each :
      Context Q.Value → Options → List Q.Value → Document K Q.Value → Run E (catalog Q) (Unit {0})
  run_each ctx o [] d = pure tt
  run_each ctx o (e ∷ es) d = W.compute e ctx o d.current >>= λ _. run_each ctx o es d

  abbrev pub event_each :
      Context Q.Value
      → Options
      → Statement Q.Idiom Q.Value W.Fields
      → List (Event Q)
      → Document K Q.Value
      → Run E (catalog Q) (Unit {0})
  event_each ctx o s [] d = pure tt
  event_each ctx o s (e ∷ es) d = do
    v ← W.compute e.when (event_context ctx s d) (with_perms false o) d.current
    if W.is_truthy v
        then run_each (event_context ctx s d) (with_perms false o) e.then_do d
        else pure tt
    event_each ctx o s es d

  unfoldable pub event :
      Context Q.Value
      → Options
      → Statement Q.Idiom Q.Value W.Fields
      → Document K Q.Value
      → Run E (catalog Q) (Unit {0})
  unfolding ev
  event ctx o s d =
      if not o.events
      then pure tt
      else when_changed D W o d (ev K Q D d o >>= λ evs. event_each ctx o s evs d)
