-- ===== src/Sql/Statements/Live.antt =====
-- lib/src/sql/statements/live.rs and kill.rs: the registration of a live query and its end.
pub mod Pair
use surreal_dbservice.Base.{String, Option, none, some}
use surreal_dbservice.Err.{live_statement, kill_statement}
use surreal_dbservice.Kvs.Engine.{Engine, Val}
use surreal_dbservice.Kvs.Tx.{get, del, putc}
use surreal_dbservice.Keys.{Storekey, encode}
use surreal_dbservice.Keys
use surreal_dbservice.Dbs.Auth.{no_level, db_level}
use surreal_dbservice.Dbs.Options
use surreal_dbservice.Dbs.Options.{Options, needs, realtime}
use surreal_dbservice.Sql.Definition.{Parts, catalog, Encoder}
use surreal_dbservice.Sql.Run.{Run, ◌>>=◌, ◌>>◌, checked, call, the, fail, pure}

-- What `FROM` of a live query is computed to: a table, or anything else with its text.
pub data Source : Type 0 where
  table : String → Source
  other : String → Source

-- The id of a live query and the bytes of a text, with the check that bytes are UTF-8.
pub record Texts (K : Storekey) (Q : Parts) : Type 0 where
  pub id : Q.Live → K.Uuid
  pub uuid_text : K.Uuid → String
  pub bytes : String → Val
  pub from_utf8 : Val → Option String

module _ {E : Engine} (K : Storekey) (Q : Parts) (W : Encoder Q) (T : Texts K Q)
    (compute_what : Q.Live → Options → Run E (catalog Q) Source) where
  abbrev pub register : String → String → Q.Live → Source → Run E (catalog Q) K.Uuid
  register ns db s (table tb) = do
    call (putc (encode (Keys.Lq.new K ns db (T.id s))) (T.bytes tb) none)
    call (putc (encode (Keys.Lv.new K ns db tb (T.id s))) (W.encode_live s) none)
    pure (T.id s)
  register ns db s (other text) = fail (live_statement text)

  unfoldable pub live : Q.Live → Options → Run E (catalog Q) K.Uuid
  unfolding realtime needs Options.check putc encode
  live s o = do
    checked (realtime o)
    checked (needs o db_level)
    checked (Options.check o no_level)
    what ← compute_what s o
    ns ← the o.ns
    db ← the o.db
    register ns db s what

  abbrev pub unregister : String → String → K.Uuid → Option String → Run E (catalog Q) (Unit {0})
  unregister ns db id (some tb) = do
    call (del (encode (Keys.Lq.new K ns db id)))
    call (del (encode (Keys.Lv.new K ns db tb id)))
  unregister ns db id none = fail (kill_statement (T.uuid_text id))

  abbrev pub unregister_found : String → String → K.Uuid → Option Val → Run E (catalog Q) (Unit {0})
  unregister_found ns db id (some val) = unregister ns db id (T.from_utf8 val)
  unregister_found ns db id none = fail (kill_statement (T.uuid_text id))

  unfoldable pub kill : K.Uuid → Options → Run E (catalog Q) (Unit {0})
  unfolding realtime needs Options.check get del encode
  kill id o = do
    checked (realtime o)
    checked (needs o db_level)
    checked (Options.check o no_level)
    ns ← the o.ns
    db ← the o.db
    val ← call (get (encode (Keys.Lq.new K ns db id)))
    unregister_found ns db id val
