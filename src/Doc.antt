-- ===== src/Doc.antt =====
-- lib/src/doc: the processing of one record by a statement. The operations on values of
-- lib/src/sql/value, the evaluation of expressions and the views of lib/src/doc/table.rs are parameters
-- (`World`).
pub mod Schema
pub mod Checks
pub mod Edit
pub mod Fields
pub mod Save
pub mod Index
pub mod Event
pub mod Pluck
pub mod Known
pub mod Stored
pub mod Edge
pub mod Uniq
pub mod Denied
pub mod Bare
pub mod Process
use surreal_dbservice.Base.{String, Bool, true, false, not, ◌||◌, Option, none, some, List}
use surreal_dbservice.Kvs.Engine.{Engine, Val}
use surreal_dbservice.Keys.{Storekey}
use surreal_dbservice.Ctx.{Context, Flags}
use surreal_dbservice.Dbs.Options.{Options}
use surreal_dbservice.Sql.Definition.{Parts, catalog, Kind}
use surreal_dbservice.Sql.Run.{Run}

-- lib/src/sql/thing.rs
pub record Thing (K : Storekey) : Type 0 where
  pub tb : String
  pub id : K.RecordId

-- lib/src/dbs/iterator.rs
pub data Workable (K : Storekey) (V : Type 0) : Type 0 where
  normal_work : Workable K V
  insert_work : V → Workable K V
  relate_work : Thing K → Thing K → Workable K V

pub record Document (K : Storekey) (V : Type 0) : Type 0 where
  pub id : Option (Thing K)
  pub extras : Workable K V
  pub current : V
  pub initial : V

-- lib/src/sql/operator.rs, as far as a SET clause parses
pub data Assign : Type 0 where
  equal inc dec : Assign

-- lib/src/sql/data.rs
pub data Data (Idiom V : Type 0) : Type 0 where
  set_data update_data : List (Idiom × Assign × V) → Data Idiom V
  empty_data : Data Idiom V
  patch_data merge_data replace_data content_data single_data : V → Data Idiom V
  values_data : List (List (Idiom × V)) → Data Idiom V

-- lib/src/sql/output.rs
pub data Output (Fields : Type 0) : Type 0 where
  none_output null_output diff_output after_output before_output : Output Fields
  fields_output : Fields → Output Fields

-- lib/src/dbs/statement.rs
pub data Verb : Type 0 where
  select create update relate delete insert : Verb

pub record Statement (Idiom V Fields : Type 0) : Type 0 where
  pub verb : Verb
  -- `data`, or `update` of an INSERT
  pub data_clause : Option (Data Idiom V)
  pub cond : Option V
  pub output_clause : Option (Output Fields)
  -- what a SELECT selects, and whether it groups
  pub expr : Fields
  pub grouped : Bool

abbrev pub is_delete_verb : Verb → Bool
is_delete_verb delete = true
is_delete_verb _ = false

abbrev pub is_select_verb : Verb → Bool
is_select_verb select = true
is_select_verb _ = false

abbrev pub data_of : {A : Type 0} → Verb → Option A → Option A
data_of select d = none
data_of delete d = none
data_of _ d = d

abbrev pub conds_of : {A : Type 0} → Verb → Option A → Option A
conds_of select c = c
conds_of update c = c
conds_of delete c = c
conds_of _ c = none

abbrev pub output_of : {A : Type 0} → Verb → Option A → Option A
output_of select o = none
output_of _ o = o

module _ {Idiom V Fields : Type 0} where
  abbrev pub is_delete : Statement Idiom V Fields → Bool
  is_delete s = is_delete_verb s.verb

  abbrev pub is_select : Statement Idiom V Fields → Bool
  is_select s = is_select_verb s.verb

  abbrev pub stm_data : Statement Idiom V Fields → Option (Data Idiom V)
  stm_data s = data_of s.verb s.data_clause

  abbrev pub conds : Statement Idiom V Fields → Option V
  conds s = conds_of s.verb s.cond

  abbrev pub output : Statement Idiom V Fields → Option (Output Fields)
  output s = output_of s.verb s.output_clause

-- What the code of lib/src/doc calls: values, idioms and expressions.
pub record World (E : Engine) (K : Storekey) (Q : Parts) : Type 1 where
  pub Fields : Type 0
  -- the flags when the document is processed; a context that is made here is cancelled by nobody
  pub flags : Flags
  pub compute : Q.Value → Context Q.Value → Options → Q.Value → Run E (catalog Q) Q.Value
  pub compute_idiom : Q.Idiom → Context Q.Value → Options → Q.Value → Run E (catalog Q) Q.Value
  pub compute_fields :
      Fields → Context Q.Value → Options → Q.Value → Bool → Run E (catalog Q) Q.Value
  pub is_truthy : Q.Value → Bool
  -- `Value::is_none`: NONE or NULL
  pub is_none : Q.Value → Bool
  -- the pattern `Value::None`, which NULL does not match
  pub matches_none : Q.Value → Bool
  pub eq_value : Q.Value → Q.Value → Bool
  pub eq_values : List Q.Value → List Q.Value → Bool
  pub eq_idiom : Q.Idiom → Q.Idiom → Bool
  pub none_value : Q.Value
  pub null_value : Q.Value
  pub strand : String → Q.Value
  pub of_thing : Thing K → Q.Value
  pub as_thing : Q.Value → Option (Thing K)
  pub value_text : Q.Value → String
  pub thing_text : Thing K → String
  pub def : Context Q.Value → Options → Thing K → Q.Value → Run E (catalog Q) Q.Value
  pub set : Context Q.Value → Options → Q.Idiom → Q.Value → Q.Value → Run E (catalog Q) Q.Value
  pub del : Context Q.Value → Options → Q.Idiom → Q.Value → Run E (catalog Q) Q.Value
  pub increment :
      Context Q.Value → Options → Q.Idiom → Q.Value → Q.Value → Run E (catalog Q) Q.Value
  pub decrement :
      Context Q.Value → Options → Q.Idiom → Q.Value → Q.Value → Run E (catalog Q) Q.Value
  pub patch : Context Q.Value → Options → Q.Value → Q.Value → Run E (catalog Q) Q.Value
  pub merge : Context Q.Value → Options → Q.Value → Q.Value → Run E (catalog Q) Q.Value
  pub replace : Context Q.Value → Options → Q.Value → Q.Value → Run E (catalog Q) Q.Value
  pub clear : Context Q.Value → Options → Q.Value → Run E (catalog Q) Q.Value
  pub each : Q.Idiom → Q.Value → List Q.Idiom
  pub walk : Q.Idiom → Q.Value → List (Q.Idiom × Q.Value)
  pub every : Q.Value → List Q.Idiom
  pub pick : Q.Idiom → Q.Value → Q.Value
  pub diff : Q.Value → Q.Value → Q.Value
  pub convert_to : Kind → Q.Value → Q.Value
  pub is_id : Q.Idiom → Bool
  pub is_in : Q.Idiom → Bool
  pub is_out : Q.Idiom → Bool
  pub in_idiom : Q.Idiom
  pub out_idiom : Q.Idiom
  pub meta_idiom : Q.Idiom
  pub dir_in : K.Dir
  pub dir_out : K.Dir
  pub array : List Q.Value → K.Array
  pub encode_thing : Thing K → Val
  pub encode_value : Q.Value → Val
  -- the DELETE of the edges of a record
  pub delete_edges : Thing K → Context Q.Value → Options → Run E (catalog Q) (Unit {0})
  -- lib/src/doc/table.rs
  pub table :
      Document K Q.Value
      → Context Q.Value
      → Options
      → Statement Q.Idiom Q.Value Fields
      → Run E (catalog Q) (Unit {0})

module _ {E : Engine} {K : Storekey} {Q : Parts} (W : World E K Q) where
  abbrev pub changed : Document K Q.Value → Bool
  changed d = not (W.eq_value d.initial d.current)

  abbrev pub is_new : Document K Q.Value → Bool
  is_new d = W.is_none d.initial
