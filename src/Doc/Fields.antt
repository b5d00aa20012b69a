-- ===== src/Doc/Fields.antt =====
-- lib/src/doc: field.rs and clean.rs, which hold a record to the definitions of its fields.
use surreal_dbservice.Base.{
  Bool, false, not, ◌&&◌, ◌||◌, Option, none, some, List, [], ◌∷◌, ◌++◌, if◌then◌else◌,
}
use surreal_dbservice.Err.{field_value}
use surreal_dbservice.Kvs.Engine.{Engine}
use surreal_dbservice.Kvs.Definitions.{Codec}
use surreal_dbservice.Keys.{Storekey}
use surreal_dbservice.Ctx
use surreal_dbservice.Ctx.{Context, add_value}
use surreal_dbservice.Dbs.Auth
use surreal_dbservice.Dbs.Options.{Options}
use surreal_dbservice.Sql.Definition.{Parts, catalog, Field, Kind}
use surreal_dbservice.Sql.Permission.{
  Permission, Permissions, no_permission, full_permission, specific,
}
use surreal_dbservice.Sql.Run.{Run, ◌>>=◌, ◌>>◌, pure, fail}
use surreal_dbservice.Doc.{Document, Statement, World, is_new, is_delete}
use surreal_dbservice.Doc.Schema.{tb, fd}
use surreal_dbservice.Doc.Edit.{changing, put_field}

module _ {E : Engine} {K : Storekey} {Q : Parts} (D : Codec (catalog Q)) (W : World E K Q) where
  -- the context of the clauses of a field
  abbrev pub field_context : Context Q.Value → Q.Value → Q.Value → Context Q.Value
  field_context ctx val old =
      add_value "before" old (add_value "after" val (add_value "value" val (Ctx.new ctx W.flags).0))

  abbrev pub value_clause :
      Context Q.Value
      → Options
      → Option Q.Value
      → Q.Value
      → Q.Value
      → Q.Value
      → Run E (catalog Q) Q.Value
  value_clause ctx o none old cur val = pure val
  value_clause ctx o (some e) old cur val = W.compute e (field_context ctx val old) o cur

  abbrev pub kind_clause : Option Kind → Q.Value → Q.Value
  kind_clause none val = val
  kind_clause (some k) val = W.convert_to k val

  abbrev pub assert_clause :
      Context Q.Value
      → Options
      → Q.Idiom
      → Option Q.Value
      → Q.Value
      → Q.Value
      → Q.Value
      → Run E (catalog Q) (Unit {0})
  assert_clause ctx o name none old cur val = pure tt
  assert_clause ctx o name (some e) old cur val = do
    v ← W.compute e (field_context ctx val old) o cur
    if not (W.is_truthy v)
        then fail (field_value (W.value_text val) (Q.idiom_text name) (W.value_text e))
        else pure tt

  abbrev pub field_permission :
      Statement Q.Idiom Q.Value W.Fields → Bool → Permissions Q.Value → Permission Q.Value
  field_permission s fresh p =
      if is_delete s then p.delete else if fresh then p.create else p.update

  abbrev pub permitted_value :
      Context Q.Value
      → Options
      → Permission Q.Value
      → Q.Value
      → Q.Value
      → Q.Value
      → Run E (catalog Q) Q.Value
  permitted_value ctx o full_permission old cur val = pure val
  permitted_value ctx o no_permission old cur val = pure old
  permitted_value ctx o (specific e) old cur val = do
    v ← W.compute e (field_context ctx val old) o cur
    pure (if not (W.is_truthy v) then old else val)

  -- one field of the record that a definition is about
  unfoldable pub field_at :
      Context Q.Value
      → Options
      → Statement Q.Idiom Q.Value W.Fields
      → Field Q
      → Q.Idiom
      → Q.Value
      → Document K Q.Value
      → Run E (catalog Q) (Document K Q.Value)
  unfolding Auth.perms
  field_at ctx o s f k val d = do
    let old = W.pick k d.initial
    val1 ← value_clause ctx o f.value old d.current val
    let val2 = kind_clause f.kind val1
    assert_clause ctx o f.name f.assert old d.current val2
    val3 ←
        if o.perms && Auth.perms o.auth
        then permitted_value ctx o (field_permission s (is_new W d) f.permissions) old d.current
            val2
        else pure val2
    put_field D W ctx o k val3 d

  abbrev pub field_walk :
      Context Q.Value
      → Options
      → Statement Q.Idiom Q.Value W.Fields
      → Field Q
      → List (Q.Idiom × Q.Value)
      → Document K Q.Value
      → Run E (catalog Q) (Document K Q.Value)
  field_walk ctx o s f [] d = pure d
  field_walk ctx o s f ((k, val) ∷ ks) d = do
    d' ← field_at ctx o s f k val d
    field_walk ctx o s f ks d'

  abbrev pub field_each :
      Context Q.Value
      → Options
      → Statement Q.Idiom Q.Value W.Fields
      → List (Field Q)
      → Document K Q.Value
      → Run E (catalog Q) (Document K Q.Value)
  field_each ctx o s [] d = pure d
  field_each ctx o s (f ∷ fs) d = do
    d' ← field_walk ctx o s f (W.walk f.name d.current) d
    field_each ctx o s fs d'

  unfoldable pub field :
      Context Q.Value
      → Options
      → Statement Q.Idiom Q.Value W.Fields
      → Document K Q.Value
      → Run E (catalog Q) (Document K Q.Value)
  unfolding fd field_at
  field ctx o s d = do fds ← fd K Q D d o; field_each ctx o s fds d

  -- the fields that the definitions cover
  abbrev pub defined_keys : List (Field Q) → Q.Value → List Q.Idiom
  defined_keys [] v = []
  defined_keys (f ∷ fs) v = W.each f.name v ++ defined_keys fs v

  abbrev pub contains_key : List Q.Idiom → Q.Idiom → Bool
  contains_key [] k = false
  contains_key (j ∷ js) k = W.eq_idiom j k || contains_key js k

  abbrev pub stays : List Q.Idiom → Q.Idiom → Bool
  stays keys k = contains_key keys k || W.is_id k || W.is_in k || W.is_out k

  abbrev pub clean_each :
      Context Q.Value
      → Options
      → List Q.Idiom
      → List Q.Idiom
      → Document K Q.Value
      → Run E (catalog Q) (Document K Q.Value)
  clean_each ctx o keys [] d = pure d
  clean_each ctx o keys (k ∷ ks) d = do
    d' ← if stays keys k then pure d else changing D W d (W.del ctx o k)
    clean_each ctx o keys ks d'

  unfoldable pub clean :
      Context Q.Value → Options → Document K Q.Value → Run E (catalog Q) (Document K Q.Value)
  unfolding tb fd
  clean ctx o d = do
    t ← tb K Q D d o
    let whole : Run E (catalog Q) (Document K Q.Value) =
        (fd K Q D d o >>= λ fds.
        clean_each ctx o (defined_keys fds d.current) (W.every d.current) d)
    if t.full then whole else pure d
