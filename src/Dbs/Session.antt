-- ===== src/Dbs/Session.antt =====
-- lib/src/dbs/session.rs, lib/src/dbs/variables.rs, and what `Datastore::process` of
-- lib/src/kvs/ds.rs sets up from a session before a query is executed. Of the values only the three
-- constructors that the code uses are named (`Values`).
pub mod Setup
use surreal_dbservice.Base.{String, Bool, false, Option, none, some, List, [], ◌∷◌}
use surreal_dbservice.Base.Assoc.{Assoc}
use surreal_dbservice.Ctx.{Context, Flags, background, add_value}
use surreal_dbservice.Dbs.Auth.{Auth, no_auth, kv_auth, ns_auth, db_auth, sc_auth}
use surreal_dbservice.Dbs.Options
use surreal_dbservice.Dbs.Options.{Options}

-- `Value::None`, `Value::Strand` and `Value::Object`
pub record Values (V : Type 0) : Type 0 where
  pub none_value : V
  pub strand : String → V
  pub object : Assoc V → V

pub record Session (V : Type 0) : Type 0 where
  pub au : Auth
  pub rt : Bool
  pub ip : Option String
  pub origin : Option String
  pub id : Option String
  pub ns : Option String
  pub db : Option String
  pub sc : Option String
  pub sd : Option V

-- `Variables`, whose map is iterated over: an entry for each variable
abbrev pub Variables : Type 0 → Type 0
Variables V = Option (List (String × V))

module _ {V : Type 0} where
  -- `Session::default()`
  abbrev pub default : Session V
  default = record {
    au = no_auth;
    rt = false;
    ip = none;
    origin = none;
    id = none;
    ns = none;
    db = none;
    sc = none;
    sd = none;
  }

  abbrev pub for_kv : Session V
  for_kv = record default { au = kv_auth }

  abbrev pub for_ns : String → Session V
  for_ns ns = record default { ns = some ns; au = ns_auth ns }

  abbrev pub for_db : String → String → Session V
  for_db ns db = record default { ns = some ns; db = some db; au = db_auth ns db }

  abbrev pub for_sc : String → String → String → Session V
  for_sc ns db sc = record default {
    ns = some ns;
    db = some db;
    sc = some sc;
    au = sc_auth ns db sc;
  }

  abbrev pub with_ns : String → Session V → Session V
  with_ns ns s = record s { ns = some ns }

  abbrev pub with_db : String → Session V → Session V
  with_db db s = record s { db = some db }

  -- `From<Option<String>> for Value` and `From<Option<Value>> for Value`
  abbrev pub of_text : Values V → Option String → V
  of_text W none = W.none_value
  of_text W (some s) = W.strand s

  abbrev pub of_value : Values V → Option V → V
  of_value W none = W.none_value
  of_value W (some v) = v

  -- the value of `$session`, its entries in the order of the code (a `BTreeMap` sorts them)
  abbrev pub described : Values V → Session V → V
  described W s = W.object (
      ("ip", of_text W s.ip)
      ∷ ("or", of_text W s.origin)
      ∷ ("id", of_text W s.id)
      ∷ ("ns", of_text W s.ns)
      ∷ ("db", of_text W s.db)
      ∷ ("sc", of_text W s.sc)
      ∷ [])

  unfoldable pub context : Values V → Session V → Context V → Context V
  context W s ctx =
      add_value "session" (described W s)
        (add_value "auth" (of_value W s.sd) (add_value "scope" (of_text W s.sc) ctx))

  abbrev pub attach_each : List (String × V) → Context V → Context V
  attach_each [] ctx = ctx
  attach_each ((key, val) ∷ m) ctx = attach_each m (add_value key val ctx)

  unfoldable pub attach : Variables V → Context V → Context V
  attach none ctx = ctx
  attach (some m) ctx = attach_each m ctx

  -- `Datastore::process` up to `exe.execute(ctx, opt, ast)`
  unfoldable pub set_up :
      Values V → Session V → Variables V → Bool → Flags → Context V × Options × Flags
  set_up W sess vars strict flags =
      let (ctx, flags') = background flags in
      (
        attach vars (context W sess ctx),
        record Options.default {
          auth = sess.au;
          live = sess.rt;
          ns = sess.ns;
          db = sess.db;
          strict = strict;
        },
        flags',
      )
