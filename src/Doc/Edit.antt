-- ===== src/Doc/Edit.antt =====
-- lib/src/doc: alter.rs, merge.rs and erase.rs, which change the record.
use surreal_dbservice.Base.{Option, none, some, List, [], ◌∷◌, if◌then◌else◌}
use surreal_dbservice.Kvs.Engine.{Engine}
use surreal_dbservice.Kvs.Definitions.{Codec}
use surreal_dbservice.Keys.{Storekey}
use surreal_dbservice.Ctx.{Context}
use surreal_dbservice.Dbs.Options.{Options}
use surreal_dbservice.Sql.Definition.{Parts, catalog}
use surreal_dbservice.Sql.Run.{Run, ◌>>=◌, pure, panic, the}
use surreal_dbservice.Doc.{
  Document, Statement, World, Workable, normal_work, insert_work, relate_work, Assign, equal, inc,
  dec, Data, set_data, update_data, patch_data, merge_data, replace_data, content_data, empty_data,
  single_data, values_data, stm_data,
}

module _ {E : Engine} {K : Storekey} {Q : Parts} (D : Codec (catalog Q)) (W : World E K Q) where
  -- a record with what a run makes of its value
  abbrev pub changing :
      Document K Q.Value
      → (Q.Value → Run E (catalog Q) Q.Value)
      → Run E (catalog Q) (Document K Q.Value)
  changing d f = do v ← f d.current; pure (record d { current = v })

  abbrev pub defaults :
      Context Q.Value → Options → Document K Q.Value → Run E (catalog Q) (Document K Q.Value)
  defaults ctx o d = do rid ← the d.id; changing d (W.def ctx o rid)

  -- `Value::None` deletes the field
  abbrev pub put_field :
      Context Q.Value
      → Options
      → Q.Idiom
      → Q.Value
      → Document K Q.Value
      → Run E (catalog Q) (Document K Q.Value)
  put_field ctx o k v d =
      if W.matches_none v then changing d (W.del ctx o k) else changing d (W.set ctx o k v)

  abbrev pub assign :
      Context Q.Value
      → Options
      → Assign
      → Q.Idiom
      → Q.Value
      → Document K Q.Value
      → Run E (catalog Q) (Document K Q.Value)
  assign ctx o equal k v d = put_field ctx o k v d
  assign ctx o inc k v d = changing d (W.increment ctx o k v)
  assign ctx o dec k v d = changing d (W.decrement ctx o k v)

  abbrev pub assign_each :
      Context Q.Value
      → Options
      → List (Q.Idiom × Assign × Q.Value)
      → Document K Q.Value
      → Run E (catalog Q) (Document K Q.Value)
  assign_each ctx o [] d = pure d
  assign_each ctx o ((k, op, e) ∷ xs) d = do
    v ← W.compute e ctx o d.current
    d' ← assign ctx o op k v d
    assign_each ctx o xs d'

  abbrev pub apply_data :
      Context Q.Value
      → Options
      → Option (Data Q.Idiom Q.Value)
      → Document K Q.Value
      → Run E (catalog Q) (Document K Q.Value)
  apply_data ctx o none d = pure d
  apply_data ctx o (some (set_data x)) d = assign_each ctx o x d
  apply_data ctx o (some (update_data x)) d = assign_each ctx o x d
  apply_data ctx o (some (patch_data e)) d = do
    v ← W.compute e ctx o d.current
    changing d (W.patch ctx o v)
  apply_data ctx o (some (merge_data e)) d = do
    v ← W.compute e ctx o d.current
    changing d (W.merge ctx o v)
  apply_data ctx o (some (replace_data e)) d = do
    v ← W.compute e ctx o d.current
    changing d (W.replace ctx o v)
  apply_data ctx o (some (content_data e)) d = do
    v ← W.compute e ctx o d.current
    changing d (W.replace ctx o v)
  -- `unreachable!()`
  apply_data ctx o (some empty_data) d = panic
  apply_data ctx o (some (single_data e)) d = panic
  apply_data ctx o (some (values_data rows)) d = panic

  unfoldable pub alter :
      Context Q.Value
      → Options
      → Statement Q.Idiom Q.Value W.Fields
      → Document K Q.Value
      → Run E (catalog Q) (Document K Q.Value)
  alter ctx o s d = do
    d1 ← defaults ctx o d
    d2 ← apply_data ctx o (stm_data s) d1
    defaults ctx o d2

  abbrev pub merge_extras :
      Context Q.Value
      → Options
      → Workable K Q.Value
      → Document K Q.Value
      → Run E (catalog Q) (Document K Q.Value)
  merge_extras ctx o (insert_work e) d = do
    v ← W.compute e ctx o d.current
    changing d (W.merge ctx o v)
  merge_extras ctx o normal_work d = pure d
  merge_extras ctx o (relate_work l r) d = pure d

  unfoldable pub merge :
      Context Q.Value → Options → Document K Q.Value → Run E (catalog Q) (Document K Q.Value)
  merge ctx o d = do d1 ← defaults ctx o d; d2 ← merge_extras ctx o d1.extras d1; defaults ctx o d2

  unfoldable pub erase :
      Context Q.Value → Options → Document K Q.Value → Run E (catalog Q) (Document K Q.Value)
  erase ctx o d = changing d (W.clear ctx o)
