-- ===== src/Doc/Process.antt =====
-- lib/src/doc: select.rs, create.rs, update.rs, insert.rs, relate.rs, delete.rs, lives.rs and compute.rs,
-- the order in which a record is processed.
use surreal_dbservice.Base.{not, Option, if◌then◌else◌}
use surreal_dbservice.Kvs.Engine.{Engine}
use surreal_dbservice.Kvs.Definitions.{Codec}
use surreal_dbservice.Keys.{Storekey}
use surreal_dbservice.Ctx.{Context}
use surreal_dbservice.Dbs.Options.{Options}
use surreal_dbservice.Sql.Definition.{Parts, catalog}
use surreal_dbservice.Sql.Run.{Run, ◌>>=◌, ◌>>◌, pure}
use surreal_dbservice.Doc.{
  Document, Thing, Statement, World, Workable, normal_work, insert_work, relate_work, Verb,
}
use surreal_dbservice.Doc
use surreal_dbservice.Doc.Checks.{exist, empty, check, allow}
use surreal_dbservice.Doc.Edit.{alter, merge, erase}
use surreal_dbservice.Doc.Fields.{field, clean}
use surreal_dbservice.Doc.Save.{store, edges, purge}
use surreal_dbservice.Doc.Index.{index}
use surreal_dbservice.Doc.Event.{event}
use surreal_dbservice.Doc.Pluck.{pluck}

-- lib/src/dbs/iterator.rs
pub data Operable (K : Storekey) (V : Type 0) : Type 0 where
  plain : V → Operable K V
  mergeable : V → V → Operable K V
  relatable : Thing K → V → Thing K → Operable K V

abbrev pub value_in : {K : Storekey} {V : Type 0} → Operable K V → V
value_in (plain v) = v
value_in (mergeable v o) = v
value_in (relatable f v w) = v

abbrev pub work_of : {K : Storekey} {V : Type 0} → Operable K V → Workable K V
work_of (plain v) = normal_work
work_of (mergeable v o) = insert_work o
work_of (relatable f v w) = relate_work f w

module _ {E : Engine} {K : Storekey} {Q : Parts} (D : Codec (catalog Q)) (W : World E K Q)
    (ctx : Context Q.Value) (o : Options) (s : Statement Q.Idiom Q.Value W.Fields) where
  -- lives.rs does nothing yet
  abbrev pub lives : Document K Q.Value → Run E (catalog Q) (Unit {0})
  lives d = pure tt

  -- what follows when the record has been changed and saved
  abbrev pub announce : Document K Q.Value → Run E (catalog Q) Q.Value
  announce d = do W.table d ctx o s; lives d; event D W ctx o s d; pluck D W ctx o s d

  unfoldable pub select : Document K Q.Value → Run E (catalog Q) Q.Value
  unfolding empty check allow pluck
  select d = do empty D W d; check D W ctx o s d; allow D W ctx o s d; pluck D W ctx o s d

  unfoldable pub create : Document K Q.Value → Run E (catalog Q) Q.Value
  unfolding exist alter field clean allow index store event pluck
  create d = do
    exist D W d
    d1 ← alter D W ctx o s d
    d2 ← field D W ctx o s d1
    d3 ← clean D W ctx o d2
    allow D W ctx o s d3
    index D W ctx o d3
    store D W o d3
    announce d3

  unfoldable pub update : Document K Q.Value → Run E (catalog Q) Q.Value
  unfolding check alter field clean allow index store event pluck
  update d = do
    check D W ctx o s d
    allow D W ctx o s d
    d1 ← alter D W ctx o s d
    d2 ← field D W ctx o s d1
    d3 ← clean D W ctx o d2
    allow D W ctx o s d3
    index D W ctx o d3
    store D W o d3
    announce d3

  unfoldable pub relate : Document K Q.Value → Run E (catalog Q) Q.Value
  unfolding alter field clean allow edges index store event pluck
  relate d = do
    allow D W ctx o s d
    d1 ← alter D W ctx o s d
    d2 ← field D W ctx o s d1
    d3 ← clean D W ctx o d2
    allow D W ctx o s d3
    d4 ← edges D W ctx o d3
    index D W ctx o d4
    store D W o d4
    announce d4

  unfoldable pub delete : Document K Q.Value → Run E (catalog Q) Q.Value
  unfolding check erase allow index purge event pluck
  delete d = do
    check D W ctx o s d
    d1 ← erase D W ctx o d
    allow D W ctx o s d1
    index D W ctx o d1
    purge D W ctx o d1
    announce d1

  abbrev pub insert_fresh : Document K Q.Value → Run E (catalog Q) Q.Value
  insert_fresh d = do
    allow D W ctx o s d
    d1 ← merge D W ctx o d
    d2 ← field D W ctx o s d1
    d3 ← clean D W ctx o d2
    allow D W ctx o s d3
    index D W ctx o d3
    store D W o d3
    announce d3

  abbrev pub insert_over : Document K Q.Value → Run E (catalog Q) Q.Value
  insert_over d = do
    allow D W ctx o s d
    d1 ← alter D W ctx o s d
    d2 ← field D W ctx o s d1
    d3 ← clean D W ctx o d2
    allow D W ctx o s d3
    index D W ctx o d3
    store D W o d3
    announce d3

  unfoldable pub insert : Document K Q.Value → Run E (catalog Q) Q.Value
  unfolding alter merge field clean allow index store event pluck
  insert d = if not (W.is_none d.current) then insert_over d else insert_fresh d

  abbrev pub run_verb : Verb → Document K Q.Value → Run E (catalog Q) Q.Value
  run_verb Doc.select d = select d
  run_verb Doc.create d = create d
  run_verb Doc.update d = update d
  run_verb Doc.relate d = relate d
  run_verb Doc.delete d = delete d
  run_verb Doc.insert d = insert d

  -- `Document::compute`, which sends what the record comes to
  unfoldable pub compute : Option (Thing K) → Operable K Q.Value → Run E (catalog Q) Q.Value
  unfolding select create update relate delete insert
  compute id v =
      run_verb s.verb
        (record { id = id; extras = work_of v; current = value_in v; initial = value_in v })
