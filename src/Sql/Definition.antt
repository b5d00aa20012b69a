-- ===== src/Sql/Definition.antt =====
-- lib/src/sql/statements/define.rs: the definitions, which are the statements that make them. The
-- values, idioms, durations and the clauses of a view beside its tables are parameters (`Parts`).
use surreal_dbservice.Base.{String, Bool, Option, List}
use surreal_dbservice.Kvs.Engine.{Val}
use surreal_dbservice.Kvs.Cache.{Catalog}
use surreal_dbservice.Sql.Permission.{Permissions}

pub record Parts : Type 1 where
  pub Value : Type 0
  pub Idiom : Type 0
  pub Duration : Type 0
  -- `expr`, `cond` and `group` of a view
  pub Clauses : Type 0
  pub Live : Type 0
  -- `to_string`
  pub idiom_text : Idiom → String

-- lib/src/sql/base.rs
pub data Base : Type 0 where
  kv_base ns_base db_base : Base

-- lib/src/sql/algorithm.rs
pub data Algorithm : Type 0 where
  eddsa es256 es384 es512 hs256 hs384 hs512 ps256 ps384 ps512 rs256 rs384 rs512 : Algorithm

-- lib/src/sql/kind.rs
pub data Kind : Type 0 where
  any_kind array_kind bool_kind datetime_kind decimal_kind duration_kind float_kind : Kind
  int_kind number_kind object_kind string_kind : Kind
  record_kind : List String → Kind
  geometry_kind : List String → Kind

pub record Namespace : Type 0 where
  pub name : String

pub record Database : Type 0 where
  pub name : String

pub record Login : Type 0 where
  pub name : String
  pub base : Base
  pub hash : String
  pub code : String

pub record Token : Type 0 where
  pub name : String
  pub base : Base
  pub kind : Algorithm
  pub code : String

module _ (Q : Parts) where
  pub record Scope : Type 0 where
    pub name : String
    pub code : String
    pub session : Option Q.Duration
    pub signup : Option Q.Value
    pub signin : Option Q.Value

  -- lib/src/sql/view.rs
  pub record View : Type 0 where
    pub clauses : Q.Clauses
    pub what : List String

  pub record Table : Type 0 where
    pub name : String
    pub drop : Bool
    pub full : Bool
    pub view : Option View
    pub permissions : Permissions Q.Value

  pub record Event : Type 0 where
    pub name : String
    pub what : String
    pub when : Q.Value
    pub then_do : List Q.Value

  pub record Field : Type 0 where
    pub name : Q.Idiom
    pub what : String
    pub kind : Option Kind
    pub value : Option Q.Value
    pub assert : Option Q.Value
    pub permissions : Permissions Q.Value

  pub record Index : Type 0 where
    pub name : String
    pub what : String
    pub cols : List Q.Idiom
    pub uniq : Bool

  abbrev pub catalog : Catalog
  catalog = record {
    Namespace = Namespace;
    Database = Database;
    Table = Table;
    Login = Login;
    Token = Token;
    Scope = Scope;
    Event = Event;
    Field = Field;
    Index = Index;
    Live = Q.Live;
  }

  -- The stored form of the definitions that are only written by a statement.
  pub record Encoder : Type 0 where
    pub encode_login : Login → Val
    pub encode_token : Token → Val
    pub encode_scope : Scope → Val
    pub encode_event : Event → Val
    pub encode_field : Field → Val
    pub encode_index : Index → Val
    pub encode_live : Q.Live → Val
