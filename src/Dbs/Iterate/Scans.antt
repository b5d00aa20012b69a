-- ===== src/Dbs/Iterate/Scans.antt =====
-- lib/src/dbs/iterate.rs on an open transaction: the records that an entry of a table, or of the edges
-- of a record, yields.
use surreal_dbservice.Base.{
  ℕ, ◌<◌, ◌≡◌, refl, ◌∙◌, true, false, Option, none, some, is_some, String, arith,
}
use surreal_dbservice.Base.Lists.{length, All}
use surreal_dbservice.Err.{ok}
use surreal_dbservice.Kvs.Engine.{Engine, Key, Val}
use surreal_dbservice.Kvs.Laws.{ScanLaws, PointLaws, find}
use surreal_dbservice.Kvs.Order.{range}
use surreal_dbservice.Kvs.Find.{length-range-le}
use surreal_dbservice.Kvs.Tx.{Transaction}
use surreal_dbservice.Kvs.Tx.Point.{get-open}
use surreal_dbservice.Kvs.Batch.Exact.{IsOpen, contents}
use surreal_dbservice.Kvs.Definitions.{Codec}
use surreal_dbservice.Kvs.Definitions.One.{check_ns_db_tb}
use surreal_dbservice.Keys.{Storekey, encode}
use surreal_dbservice.Keys
use surreal_dbservice.Dbs.Options.{Options}
use surreal_dbservice.Sql.Definition.{Parts, catalog}
use surreal_dbservice.Doc.{Thing}
use surreal_dbservice.Doc.Process.{Operable, plain}
use surreal_dbservice.Dbs.Walk.{Walk, with_some}
use surreal_dbservice.Dbs.Walk.Exact.{
  visit_all, Visited, walk_range-exact, walk_ranges-exact, pairs_of,
}
use surreal_dbservice.Dbs.Iterate.{
  Caller, Edges, table_entry, edges_entry, visit_record, visit_edge, edge_ranges, iterate,
  stored_value,
}

with_some-eq :
    {T S A B : Type 0} (m : Option A) (a : A) (f : A → Walk T S B) (t : T) (s : S)
    → m ≡ some a
    → with_some m f t s ≡ f a t s
with_some-eq m a f t s e = rw e refl

module _ {E : Engine} {K : Storekey} {Q : Parts} {L : ScanLaws E} (D : Codec (catalog Q))
    (R : Caller E K Q) (runs : (s : R.State) → R.is_done s ≡ false)
    (reads : (i : Option (Thing K)) (x : Operable K Q.Value) (t : Transaction E (catalog Q))
        (s : R.State)
      → IsOpen L t
      → Visited L t (R.process i x t s)) where
  -- the key of the pair parses
  abbrev pub Parses : (Key → Option (Thing K)) → Key × Val → Type 0
  Parses of p = is_some (of p.0) ≡ true

  with_some-Visited :
      (i : Option (Thing K)) (f : Thing K → Walk (Transaction E (catalog Q)) R.State (Unit {0}))
      (t : Transaction E (catalog Q)) (s : R.State)
      → is_some i ≡ true
      → ((rid : Thing K) → Visited L t (f rid t s))
      → Visited L t (with_some i f t s)
  with_some-Visited none f t s e h = cc
  with_some-Visited (some rid) f t s e h = h rid

  -- The scan of a table visits every record of the table once, in the order of the keys, and ends: where
  -- the transaction is open and the table passes the check of strict mode, an entry of the table is one
  -- plain pass over the pairs in the range of the table. Whatever is called with a record succeeds and
  -- leaves the pairs of the transaction as they are, nobody finishes the context, the keys of the
  -- records parse, and the bound on the rounds is above the number of pairs.
  pub table_scan_exact :
      (fuel : ℕ) (o : Options) (ns db tb : String) (t : Transaction E (catalog Q)) (s : R.State)
      → o.ns ≡ some ns
      → o.db ≡ some db
      → check_ns_db_tb K D ns db tb o.strict t ≡ some (ok tt, t)
      → IsOpen L t
      → All
          (Parses R.thing_of)
          (range (Keys.Thing.prefix K ns db tb) (Keys.Thing.suffix K ns db tb) (contents L t))
      → length (contents L t) < fuel
      → iterate D R fuel o (table_entry tb) t s
        ≡ visit_all
            (visit_record D R)
            (range (Keys.Thing.prefix K ns db tb) (Keys.Thing.suffix K ns db tb) (contents L t))
            t
            s
  unfolding iterate
  table_scan_exact fuel o ns db tb t s en ed passes h parse lt =
      let beg = Keys.Thing.prefix K ns db tb in
      let end = Keys.Thing.suffix K ns db tb in
      let le = length-range-le beg end (contents L t) in
      let whole =
        walk_range-exact R.is_done L (visit_record D R) runs (Parses R.thing_of)
          (λ p u z m g.
            with_some-Visited (R.thing_of p.0) _ u z m
              (λ rid. reads (some rid) (plain (R.value_of p.1)) u z g))
          fuel beg end none t s parse h (omega arith) in
      rw (runs s) (with_some-eq o.ns ns _ t s en ∙ with_some-eq o.db db _ t s ed ∙ rw passes whole)

  visit_edge-Visited :
      (P : PointLaws E L) (ns db : String) (p : Key × Val) (t : Transaction E (catalog Q))
      (s : R.State)
      → Parses R.edge_of p
      → IsOpen L t
      → Visited L t (visit_edge D R ns db p.0 p.1 t s)
  unfolding visit_edge
  visit_edge-Visited P ns db p t s m h = with_some-Visited (R.edge_of p.0) _ t s m (λ rid.
      let key = encode (Keys.Thing.new K ns db rid.tb rid.id) in
      rw (get-open P key t h)
        (reads (some rid) (plain (stored_value D R (find key (contents L t)))) t s h))

  -- The scan of the edges of a record visits every edge in the ranges of its direction and tables once,
  -- range by range and in the order of the keys, and ends: on an open transaction it is one plain pass
  -- over the pairs of the ranges, each of which reads the record at the other end. Whatever is called
  -- with a record succeeds and leaves the pairs of the transaction as they are, nobody finishes the
  -- context, the keys of the edges parse, and the bound on the rounds is above the number of pairs.
  pub edges_scan_exact :
      (P : PointLaws E L) (fuel : ℕ) (o : Options) (ns db : String) (e : Edges K)
      (t : Transaction E (catalog Q)) (s : R.State)
      → o.ns ≡ some ns
      → o.db ≡ some db
      → IsOpen L t
      → All (Parses R.edge_of) (pairs_of (edge_ranges D R ns db e) (contents L t))
      → length (contents L t) < fuel
      → iterate D R fuel o (edges_entry e) t s
        ≡ visit_all (visit_edge D R ns db) (pairs_of (edge_ranges D R ns db e) (contents L t)) t s
  unfolding iterate
  edges_scan_exact P fuel o ns db e t s en ed h parse lt =
      let whole =
        walk_ranges-exact R.is_done L (visit_edge D R ns db) runs (Parses R.edge_of)
          (λ p u z m g. visit_edge-Visited P ns db p u z m g) fuel (edge_ranges D R ns db e) t s
          parse h lt in
      rw (runs s) (with_some-eq o.ns ns _ t s en ∙ with_some-eq o.db db _ t s ed ∙ whole)
