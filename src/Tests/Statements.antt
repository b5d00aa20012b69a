-- ===== src/Tests/Statements.antt =====
-- The statements of lib/src/sql/statements on a concrete store.
use surreal_dbservice.Base.{
  String, ◌≡◌, refl, true, false, none, some, [], ◌∷◌, arith, Returns, is_some,
}
use surreal_dbservice.Err.{ok, err, query_permissions}
use surreal_dbservice.Kvs.Engine.{Key}
use surreal_dbservice.Kvs.Cache.{key_eq}
use surreal_dbservice.Kvs.Laws.{find}
use surreal_dbservice.Kvs.Gone.{Gone}
use surreal_dbservice.Kvs.Tx.{Transaction, mem}
use surreal_dbservice.Kvs.Batch.Exact.{IsOpen, contents}
use surreal_dbservice.Kvs.Definitions.{Codec}
use surreal_dbservice.Keys.{encode}
use surreal_dbservice.Keys
use surreal_dbservice.Dbs.Auth.{db_auth, no_level, db_level}
use surreal_dbservice.Dbs.Options
use surreal_dbservice.Dbs.Options.{Options}
use surreal_dbservice.Sql.Definition.{Parts, Encoder, catalog, ns_base, hs512, Table}
use surreal_dbservice.Sql.Permission.{full_permissions}
use surreal_dbservice.Sql.Run.{Run}
use surreal_dbservice.Sql.Statements.Define
use surreal_dbservice.Sql.Statements.Define.Guards.{AreSelected, define_refused, permitted}
use surreal_dbservice.Sql.Statements.Define.Guards
use surreal_dbservice.Sql.Statements.Define.Stored.{is_plain, Stored, key_of, encoded}
use surreal_dbservice.Sql.Statements.Define.Correct.{define_stores}
use surreal_dbservice.Sql.Statements.Remove
use surreal_dbservice.Sql.Statements.Remove.Guards as RemoveGuards
use surreal_dbservice.Sql.Statements.Remove.Guards.{remove_refused, remove-Returns}
use surreal_dbservice.Sql.Statements.Remove.Erased.{erased, remove_erases}
use surreal_dbservice.Sql.Statements.Live.{Source, table, Texts, live, kill}
use surreal_dbservice.Sql.Statements.Live.Pair.{kill_undoes_live}
use surreal_dbservice.Tests.Demo.{store, scan_laws, scan_bound, point_laws, three}
use surreal_dbservice.Tests.Keys.{demo, start_laws}

abbrev pub parts : Parts
parts = record {
  Value = String;
  Idiom = String;
  Duration = String;
  Clauses = Unit;
  Live = Unit;
  idiom_text = λ s. s;
}

-- a table with a name and no more
abbrev pub blank : String → Table parts
blank s = record {
  name = s;
  drop = false;
  full = false;
  view = none;
  permissions = full_permissions;
}

abbrev pub codec : Codec (catalog parts)
codec = record {
  decode_namespace = λ v. record { name = "ns" };
  decode_database = λ v. record { name = "db" };
  decode_table = λ v. blank "tb";
  decode_login = λ v. record { name = "lg"; base = ns_base; hash = ""; code = "" };
  decode_token = λ v. record { name = "tk"; base = ns_base; kind = hs512; code = "" };
  decode_scope =
      λ v. record { name = "sc"; code = ""; session = none; signup = none; signin = none };
  decode_event = λ v. record { name = "ev"; what = "tb"; when = ""; then_do = [] };
  decode_field = λ v. record {
    name = "fd";
    what = "tb";
    kind = none;
    value = none;
    assert = none;
    permissions = full_permissions;
  };
  decode_index = λ v. record { name = "ix"; what = "tb"; cols = []; uniq = false };
  decode_live = λ v. tt;
  encode_namespace = λ d. 1 ∷ [];
  new_namespace = λ s. record { name = s };
  encode_database = λ d. 2 ∷ [];
  new_database = λ s. record { name = s };
  encode_table = λ d. 3 ∷ [];
  new_table = blank;
}

abbrev encoder : Encoder parts
encoder = record {
  encode_login = λ d. 4 ∷ [];
  encode_token = λ d. 5 ∷ [];
  encode_scope = λ d. 6 ∷ [];
  encode_event = λ d. 7 ∷ [];
  encode_field = λ d. 8 ∷ [];
  encode_index = λ d. 9 ∷ [];
  encode_live = λ d. 10 ∷ [];
}

abbrev pub on : Transaction (store true) (catalog parts)
on = record { inner = mem (record { finished = false; rw = true; tx = three }); cache = [] }

on-IsOpen : IsOpen (scan_laws true) on
on-IsOpen = record { opened = refl; writable = refl; live = tt }

-- an UPDATE that finds no records
abbrev no_update : String → Options → Run (store true) (catalog parts) (Unit {0})
no_update v o t = some (ok tt, t)

abbrev pub editor : Options
editor = record (Options.new (db_auth "test" "test")) {
  ns = some "test";
  db = some "test";
  live = true;
}

abbrev person : Define.Define parts
person = Define.table (blank "person")

person-is_plain : is_plain person ≡ true
unfolding is_plain
person-is_plain = refl

person-levels : is_some (Guards.levels person) ≡ true
unfolding Guards.levels
person-levels = refl

person-permitted : permitted (Guards.levels person) editor ≡ ok tt
unfolding Guards.levels Options.needs Options.check
person-permitted = refl

person-AreSelected : AreSelected (Guards.levels person) editor "test" "test"
unfolding Guards.levels
person-AreSelected = (refl, refl)

define_stores_example :
    (t' : Transaction (store true) (catalog parts)) × (Define.define demo parts codec encoder
        no_update person editor on
      ≡ some (ok tt, t'))
    × Stored
        (point_laws true)
        on
        (key_of demo person "test" "test")
        (encoded codec encoder person)
        t'
define_stores_example =
    define_stores (point_laws true) demo codec encoder no_update person editor "test" "test" on
      person-AreSelected refl person-is_plain person-levels person-permitted on-IsOpen

abbrev production : Define.Define parts
production = Define.namespace (record { name = "prod" })

-- a user of the database may not make namespaces
refused_namespace : permitted (Guards.levels production) editor ≡ err query_permissions
unfolding Guards.levels Options.needs Options.check
refused_namespace = refl

define_refused_example :
    Define.define demo parts codec encoder no_update production editor on
    ≡ some (err query_permissions, on)
define_refused_example =
    define_refused demo parts codec encoder no_update production editor on query_permissions
      refused_namespace

abbrev drop_person : Remove.Remove
drop_person = Remove.table "person"

drop-levels : is_some (RemoveGuards.levels drop_person) ≡ true
unfolding RemoveGuards.levels
drop-levels = refl

drop-permitted : permitted (RemoveGuards.levels drop_person) editor ≡ ok tt
unfolding RemoveGuards.levels Options.needs Options.check
drop-permitted = refl

refused_drop :
    permitted (RemoveGuards.levels (Remove.namespace "test")) editor ≡ err query_permissions
unfolding RemoveGuards.levels Options.needs Options.check
refused_drop = refl

remove_refused_example :
    Remove.remove demo (Remove.namespace "test") editor on ≡ some (err query_permissions, on)
remove_refused_example =
    remove_refused demo (Remove.namespace "test") editor on query_permissions refused_drop

remove-Returns_example : Returns (Remove.remove demo drop_person editor on)
remove-Returns_example = remove-Returns demo (scan_bound true) drop_person editor on drop-levels

drop-AreSelected : AreSelected (RemoveGuards.levels drop_person) editor "test" "test"
unfolding RemoveGuards.levels
drop-AreSelected = (refl, refl)

remove_erases_example :
    (t' : Transaction (store true) (catalog parts)) × (Remove.remove demo drop_person editor on
      ≡ some (ok tt, t'))
    × Gone (scan_laws true) on (erased demo drop_person "test" "test") t'
remove_erases_example =
    remove_erases demo (scan_laws true) drop_person editor "test" "test" on drop-AreSelected
      drop-levels drop-permitted on-IsOpen (omega arith)

abbrev texts : Texts demo parts
texts = record {
  id = λ s. 3;
  uuid_text = λ u. "uuid";
  bytes = λ s. 1 ∷ [];
  from_utf8 = λ v. some "person";
}

abbrev from_person : Unit {0} → Options → Run (store true) (catalog parts) Source
from_person s o t = some (ok (table "person"), t)

abbrev lq : Key
lq = encode (Keys.Lq.new demo "test" "test" 3)

abbrev lv : Key
lv = encode (Keys.Lv.new demo "test" "test" "person" 3)

realtime_on : Options.realtime editor ≡ ok tt
unfolding Options.realtime
realtime_on = refl

selected : Options.needs editor db_level ≡ ok tt
unfolding Options.needs
selected = refl

granted : Options.check editor no_level ≡ ok tt
unfolding Options.check
granted = refl

no_lq : find lq (contents (scan_laws true) on) ≡ none
unfolding find encode key_eq
no_lq = refl

no_lv : find lv (contents (scan_laws true) on) ≡ none
unfolding find encode key_eq
no_lv = refl

kill_undoes_live_example :
    (t1 t2 : Transaction (store true) (catalog parts)) × (live demo parts encoder texts from_person
        tt editor on
      ≡ some (ok 3, t1))
    × (kill demo parts encoder texts from_person 3 editor t1 ≡ some (ok tt, t2))
    × IsOpen (scan_laws true) t2
    × ((j : Key) → find j (contents (scan_laws true) t2) ≡ find j (contents (scan_laws true) on))
kill_undoes_live_example =
    kill_undoes_live (point_laws true) start_laws encoder texts from_person tt editor "test" "test"
      "person" on refl refl realtime_on selected granted refl refl on-IsOpen no_lq no_lv
