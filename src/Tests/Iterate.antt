-- ===== src/Tests/Iterate.antt =====
-- lib/src/dbs/iterate.rs on a concrete store, with a list of record ids as what is called.
use surreal_dbservice.Base.{
  ℕ, String, ◌≡◌, ◌<◌, refl, true, false, Option, none, some, is_some, List, [], ◌∷◌, ◌++◌, arith,
}
use surreal_dbservice.Base.Lists.{All, length}
use surreal_dbservice.Err.{ok}
use surreal_dbservice.Kvs.Engine.{Key}
use surreal_dbservice.Kvs.Cache.{key_eq}
use surreal_dbservice.Kvs.Order.{Pairs, key_ltb, range}
use surreal_dbservice.Kvs.Tx.{Transaction, mem, get}
use surreal_dbservice.Kvs.Batch.Exact.{IsOpen, contents}
use surreal_dbservice.Kvs.Definitions.One.{check_ns_db_tb}
use surreal_dbservice.Keys.{encode}
use surreal_dbservice.Keys
use surreal_dbservice.Dbs.Iterate.{
  Caller, Edges, both_dir, table_entry, edges_entry, iterate, visit_record, visit_edge, edge_ranges,
}
use surreal_dbservice.Dbs.Iterate.Scans.{table_scan_exact, edges_scan_exact}
use surreal_dbservice.Dbs.Walk.Exact.{visit_all, Visited, pairs_of}
use surreal_dbservice.Sql.Definition.{catalog}
use surreal_dbservice.Doc.{Thing}
use surreal_dbservice.Doc.Process.{Operable}
use surreal_dbservice.Tests.Demo.{Table, store, scan_laws, point_laws, insert, insert-IsSorted}
use surreal_dbservice.Sql.Escape.{is_plain}
use surreal_dbservice.Tests.Keys.{demo}
use surreal_dbservice.Tests.Statements.{parts, codec, editor}
use surreal_dbservice.Tests.Doc.{alice, thing}

-- the last byte of a key, which is the record id
abbrev last_byte : Key → ℕ
last_byte [] = 0
last_byte (b ∷ []) = b
last_byte (b ∷ c ∷ k) = last_byte (c ∷ k)

abbrev ids : Option (Thing demo) → List ℕ
ids none = []
ids (some r) = r.id ∷ []

abbrev Tx : Type 0
Tx = Transaction (store true) (catalog parts)

abbrev caller : Caller (store true) demo parts
caller = record {
  State = List ℕ;
  is_done = λ s. false;
  process = λ i x t s. some (ok tt, t, s ++ ids i);
  none_value = "";
  value_of = λ v. "value";
  thing_of = λ k. some (thing "person" (last_byte k));
  edge_of = λ k. some (thing "person" (last_byte k));
  dir_in = false;
  dir_out = true;
}

abbrev person_key : ℕ → Key
person_key i = encode (Keys.Thing.new demo "test" "test" "person" i)

abbrev edge_key : ℕ → Key
edge_key i = encode (Keys.Graph.new demo "test" "test" "person" 1 true "person" i)

-- two records and an edge between them
abbrev two : Pairs
two = insert (person_key 1) [] (insert (person_key 2) [] (insert (edge_key 2) [] []))

abbrev people : Table
people = record {
  pairs = two;
  sorted =
      insert-IsSorted (person_key 1) [] (insert (person_key 2) [] (insert (edge_key 2) [] [])) (
        insert-IsSorted (person_key 2) [] (insert (edge_key 2) [] [])
          (insert-IsSorted (edge_key 2) [] [] tt));
}

abbrev on : Tx
on = record { inner = mem (record { finished = false; rw = true; tx = people }); cache = [] }

on-IsOpen : IsOpen (scan_laws true) on
on-IsOpen = record { opened = refl; writable = refl; live = tt }

reads :
    (i : Option (Thing demo)) (x : Operable demo String) (t : Tx) (s : List ℕ)
    → IsOpen (scan_laws true) t
    → Visited (scan_laws true) t (caller.process i x t s)
reads i x t s h = record { after = t; state = s ++ ids i; ended = refl; open_ = h; same = refl }

total_parser :
    (of : Key → Option (Thing demo)) (ps : Pairs)
    → ((k : Key) → is_some (of k) ≡ true)
    → All (λ p. is_some (of p.0) ≡ true) ps
total_parser of [] h = tt
total_parser of (p ∷ ps) h = (h p.0, total_parser of ps h)

passes : check_ns_db_tb demo codec "test" "test" "person" editor.strict on ≡ some (ok tt, on)
unfolding check_ns_db_tb
passes = refl

short : length (contents (scan_laws true) on) < 4
unfolding insert key_eq key_ltb encode
short = omega arith

-- the records of the table, in order
scan_visits :
    visit_all
      (visit_record codec caller)
      (range
        (Keys.Thing.prefix demo "test" "test" "person")
        (Keys.Thing.suffix demo "test" "test" "person")
        (contents (scan_laws true) on))
      on
      []
    ≡ some (ok tt, on, 1 ∷ 2 ∷ [])
unfolding visit_all range key_ltb insert key_eq encode Keys.Thing.prefix Keys.Thing.suffix
scan_visits = refl

table_scan_exact_example :
    iterate codec caller 4 editor (table_entry "person") on []
    ≡ visit_all
        (visit_record codec caller)
        (range
          (Keys.Thing.prefix demo "test" "test" "person")
          (Keys.Thing.suffix demo "test" "test" "person")
          (contents (scan_laws true) on))
        on
        []
table_scan_exact_example =
    table_scan_exact codec caller (λ s. refl) reads 4 editor "test" "test" "person" on [] refl refl
      passes on-IsOpen (total_parser caller.thing_of _ (λ k. refl)) short

abbrev friends : Edges demo
friends = record { dir = both_dir; from = alice; what = [] }

edges_scan_exact_example :
    iterate codec caller 4 editor (edges_entry friends) on []
    ≡ visit_all
        (visit_edge codec caller "test" "test")
        (pairs_of (edge_ranges codec caller "test" "test" friends) (contents (scan_laws true) on))
        on
        []
edges_scan_exact_example =
    edges_scan_exact codec caller (λ s. refl) reads (point_laws true) 4 editor "test" "test" friends
      on [] refl refl on-IsOpen (total_parser caller.edge_of _ (λ k. refl)) short

-- the record at the other end of the edge
scan_follows :
    visit_all
      (visit_edge codec caller "test" "test")
      (pairs_of (edge_ranges codec caller "test" "test" friends) (contents (scan_laws true) on))
      on
      []
    ≡ some (ok tt, on, 2 ∷ [])
unfolding visit_all visit_edge pairs_of edge_ranges range key_ltb insert key_eq encode get
scan_follows = refl

-- a name that is displayed escaped
dashed-is_plain : is_plain "a-b" ≡ false
unfolding is_plain
dashed-is_plain = refl
