-- ===== src/Tests/Doc.antt =====
-- lib/src/doc on a concrete store. A value is a text: the empty one stands for NONE.
use surreal_dbservice.Base.{
  ℕ, String, ◌≡◌, refl, sym, Bool, true, false, not, ◌&&◌, ◌||◌, Option, none, some, List, [], ◌∷◌,
  str_eq, if◌then◌else◌,
}
use surreal_dbservice.Err.{ok}
use surreal_dbservice.Kvs.Engine.{Key}
use surreal_dbservice.Kvs.Cache
use surreal_dbservice.Kvs.Cache.{key_eq, tb_entry, fds_entry, ixs_entry, evs_entry}
use surreal_dbservice.Kvs.Laws.{find}
use surreal_dbservice.Kvs.Tx.{Transaction}
use surreal_dbservice.Kvs.Batch.Exact.{IsOpen, contents}
use surreal_dbservice.Keys.{encode}
use surreal_dbservice.Keys
use surreal_dbservice.Ctx.{Context, background}
use surreal_dbservice.Dbs.Auth
use surreal_dbservice.Dbs.Auth.{db_auth, no_auth}
use surreal_dbservice.Dbs.Options
use surreal_dbservice.Dbs.Options.{Options}
use surreal_dbservice.Sql.Definition.{catalog, Table, Index}
use surreal_dbservice.Sql.Run.{Run, ◌>>=◌}
use surreal_dbservice.Doc
use surreal_dbservice.Doc.{
  Document, Thing, World, Statement, relate_work, normal_work, content_data,
}
use surreal_dbservice.Doc.Known.{Known}
use surreal_dbservice.Doc.Edge.{purge_undoes_relate, edge_keys, AllAbsent}
use surreal_dbservice.Doc.Stored.{skips, record_key}
use surreal_dbservice.Doc.Save.{store, edges, purge}
use surreal_dbservice.Doc.Index.{move_entry, entry_key}
use surreal_dbservice.Doc.Uniq.{index_moves}
use surreal_dbservice.Doc.Checks.{guarded_by_perms}
use surreal_dbservice.Doc.Denied.{started}
use surreal_dbservice.Doc.Bare.{Bare, create_stores}
use surreal_dbservice.Doc.Edit.{alter}
use surreal_dbservice.Doc.Pluck.{pluck}
use surreal_dbservice.Doc.Process.{plain, create}
use surreal_dbservice.Tests.Ctx.{no_flags}
use surreal_dbservice.Tests.Demo.{store as engine, scan_laws, point_laws}
use surreal_dbservice.Tests.Keys.{demo, to_list, letters}
use surreal_dbservice.Tests.Statements.{parts, codec, blank, on}

abbrev Tx : Type 0
Tx = Transaction (engine true) (catalog parts)

abbrev keep : {A : Type 0} → A → Run (engine true) (catalog parts) A
keep v t = some (ok v, t)

abbrev same_values : List String → List String → Bool
same_values [] [] = true
same_values (a ∷ xs) (b ∷ ys) = str_eq a b && same_values xs ys
same_values _ _ = false

abbrev pub thing : String → ℕ → Thing demo
thing tb id = record { tb = tb; id = id }

abbrev pub alice : Thing demo
alice = thing "person" 1

abbrev bob : Thing demo
bob = thing "person" 2

-- the end of an edge that a text names
abbrev named : String → Option (Thing demo)
named v = if str_eq v "in" then some alice else if str_eq v "out" then some bob else none

abbrev pub world : World (engine true) demo parts
world = record {
  Fields = Unit;
  flags = no_flags;
  compute = λ e ctx o v. keep (if str_eq e "*" then v else e);
  compute_idiom = λ i ctx o v. keep v;
  compute_fields = λ f ctx o v g. keep v;
  is_truthy = λ v. not (str_eq v "");
  is_none = λ v. str_eq v "" || str_eq v "null";
  matches_none = λ v. str_eq v "";
  eq_value = str_eq;
  eq_values = same_values;
  eq_idiom = str_eq;
  none_value = "";
  null_value = "null";
  strand = λ s. s;
  of_thing = λ r. r.tb;
  as_thing = named;
  value_text = λ v. v;
  thing_text = λ r. r.tb;
  def = λ ctx o r v. keep v;
  set = λ ctx o i x v. keep x;
  del = λ ctx o i v. keep v;
  increment = λ ctx o i x v. keep v;
  decrement = λ ctx o i x v. keep v;
  patch = λ ctx o x v. keep x;
  merge = λ ctx o x v. keep x;
  replace = λ ctx o x v. keep x;
  clear = λ ctx o v. keep "";
  each = λ i v. i ∷ [];
  walk = λ i v. (i, v) ∷ [];
  every = λ v. [];
  pick = λ i v. i;
  diff = λ a b. b;
  convert_to = λ k v. v;
  is_id = λ i. str_eq i "id";
  is_in = λ i. str_eq i "in";
  is_out = λ i. str_eq i "out";
  in_idiom = "in";
  out_idiom = "out";
  meta_idiom = "__";
  dir_in = false;
  dir_out = true;
  array = λ vs. [];
  encode_thing = λ r. r.id ∷ [];
  encode_value = λ v. letters (to_list v);
  delete_edges = λ r ctx o. keep tt;
  table = λ d ctx o s. keep tt;
}

abbrev pub ctx : Context String
ctx = (background no_flags).0

abbrev owner : Options
owner = record (Options.new (db_auth "test" "test")) { ns = some "test"; db = some "test" }

abbrev knows : Thing demo
knows = thing "knows" 7

-- a transaction that has the table of an edge in its cache
abbrev pub warm : Table parts → Tx
warm table = record on {
  cache = (encode (Keys.Tb.new demo "test" "test" table.name), tb_entry table) ∷ [];
}

warm-IsOpen : (table : Table parts) → IsOpen (scan_laws true) (warm table)
warm-IsOpen table = record { opened = refl; writable = refl; live = tt }

knows-Known : Known demo parts "test" "test" knows owner (blank "knows") (warm (blank "knows"))
unfolding Cache.get encode key_eq
knows-Known = record { ns_known = refl; db_known = refl; tb_known = refl }

-- the record of the edge, when it is made and when it is deleted
abbrev made : Document demo String
made = record { id = some knows; extras = relate_work alice bob; current = "new"; initial = "" }

abbrev erased : Document demo String
erased = record { id = some knows; extras = normal_work; current = ""; initial = "old" }

edge-AllAbsent :
    AllAbsent
      (record_key codec world "test" "test" knows
        ∷ edge_keys codec world "test" "test" knows alice bob)
      (contents (scan_laws true) (warm (blank "knows")))
unfolding find encode key_eq
edge-AllAbsent = (refl, (refl, (refl, (refl, (refl, tt)))))

purge_undoes_relate_example :
    (t1 t2 : Tx) × ((edges codec world ctx owner made >>= store codec world owner)
        (warm (blank "knows"))
      ≡ some (ok tt, t1))
    × (find (record_key codec world "test" "test" knows) (contents (scan_laws true) t1)
        ≡ some (letters (to_list "person")))
    × (purge codec world ctx owner erased t1 ≡ some (ok tt, t2))
    × IsOpen (scan_laws true) t2
    × ((j : Key)
        → find j (contents (scan_laws true) t2)
          ≡ find j (contents (scan_laws true) (warm (blank "knows"))))
purge_undoes_relate_example =
    purge_undoes_relate (point_laws true) codec world ctx "test" "test" knows alice bob owner
      (blank "knows") (warm (blank "knows")) made erased "person" "person" refl refl refl
      (λ u. refl) (λ u. refl) refl refl refl refl (warm-IsOpen (blank "knows")) knows-Known
      edge-AllAbsent

-- the unique index of the e-mail addresses
abbrev emails : Index parts
emails = record { name = "emails"; what = "person"; cols = "email" ∷ []; uniq = true }

-- a record that is new, and a store where nobody holds an address
abbrev joined : Document demo String
joined = record { id = some alice; extras = normal_work; current = "a@b"; initial = "" }

abbrev address : Key
address = entry_key codec world "test" "test" emails ("a@b" ∷ []) alice

free_address : find address (contents (scan_laws true) on) ≡ none
unfolding find encode key_eq
free_address = refl

on-IsOpen : IsOpen (scan_laws true) on
on-IsOpen = record { opened = refl; writable = refl; live = tt }

index_moves_example :
    (t' : Tx) × (move_entry codec world "test" "test" emails alice joined ("" ∷ []) ("a@b" ∷ []) on
      ≡ some (ok tt, t'))
    × IsOpen (scan_laws true) t'
    × ((j : Key)
        → find j (contents (scan_laws true) t')
          ≡ (if key_eq address j then some (1 ∷ []) else find j (contents (scan_laws true) on)))
index_moves_example =
    index_moves (point_laws true) codec world "test" "test" emails alice joined ("" ∷ [])
      ("a@b" ∷ []) on false true none refl refl (sym free_address) on-IsOpen (λ e. cc)

abbrev pub rename : Statement String String (Unit {0})
rename = record {
  verb = Doc.update;
  data_clause = none;
  cond = none;
  output_clause = none;
  expr = tt;
  grouped = false;
}

-- a table whose empty lists of definitions are in the cache
abbrev warm_bare : Tx
warm_bare = record on {
  cache =
      (encode (Keys.Tb.new demo "test" "test" "person"), tb_entry (blank "person"))
      ∷ (Keys.Fd.prefix demo "test" "test" "person", fds_entry [])
      ∷ (Keys.Ix.prefix demo "test" "test" "person", ixs_entry [])
      ∷ (Keys.Ev.prefix demo "test" "test" "person", evs_entry [])
      ∷ [];
}

warm_bare-IsOpen : IsOpen (scan_laws true) warm_bare
warm_bare-IsOpen = record { opened = refl; writable = refl; live = tt }

person-Bare : Bare demo parts "test" "test" alice owner (blank "person") warm_bare
unfolding Cache.get encode key_eq Keys.Fd.prefix Keys.Ix.prefix Keys.Ev.prefix
person-Bare = record {
  known = record { ns_known = refl; db_known = refl; tb_known = refl };
  fds = refl;
  ixs = refl;
  evs = refl;
}

abbrev make_alice : Statement String String (Unit {0})
make_alice = record rename { verb = Doc.create; data_clause = some (content_data "Alice") }

abbrev nobody : Document demo String
nobody = started (some alice) (plain "")

nobody-unguarded : guarded_by_perms codec world owner nobody ≡ false
unfolding guarded_by_perms Auth.perms
nobody-unguarded = refl

nobody-altered :
    alter codec world ctx owner make_alice nobody warm_bare
    ≡ some (ok (record nobody { current = "Alice" }), warm_bare)
unfolding alter
nobody-altered = refl

create_stores_example :
    (t' : Tx) × (create codec world ctx owner make_alice nobody warm_bare
      ≡ pluck codec world ctx owner make_alice (record nobody { current = "Alice" }) t')
    × IsOpen (scan_laws true) t'
    × ((j : Key)
        → find j (contents (scan_laws true) t') ≡ (
            if not (skips codec world owner (record nobody { current = "Alice" }) (blank "person"))
              && key_eq (record_key codec world "test" "test" alice) j
            then some (letters (to_list "Alice"))
            else find j (contents (scan_laws true) warm_bare)))
create_stores_example =
    create_stores (point_laws true) codec world ctx owner make_alice "test" "test" alice
      (blank "person") warm_bare nobody "Alice" refl refl refl nobody-unguarded nobody-altered
      (λ u. refl) warm_bare-IsOpen person-Bare
