-- ===== src/Sql/Statements/Remove/Erased.antt =====
-- What the statements of lib/src/sql/statements/remove.rs erase on an open transaction.
use surreal_dbservice.Base.{
  ◌≡◌, ◌≤◌, ap, ◌∙◌, Bool, true, false, ◌||◌, some, arith, String, is_some,
}
use surreal_dbservice.Base.Lists.{length}
use surreal_dbservice.Err.{ok}
use surreal_dbservice.Kvs.Engine.{Engine, Key}
use surreal_dbservice.Kvs.Cache.{Catalog, key_eq}
use surreal_dbservice.Kvs.Laws.{ScanLaws}
use surreal_dbservice.Kvs.Gone.{inside, Gone, Gone-both, del-Gone, delp-Gone, delr-Gone}
use surreal_dbservice.Kvs.Tx.{Transaction, del}
use surreal_dbservice.Kvs.Batch.{delr, delp}
use surreal_dbservice.Kvs.Batch.Exact.{IsOpen, contents}
use surreal_dbservice.Kvs.Batch.Prefix.{extends}
use surreal_dbservice.Kvs.Definitions.{Outcome, u32_max}
use surreal_dbservice.Keys.{Storekey, encode}
use surreal_dbservice.Keys
use surreal_dbservice.Dbs.Auth.{kv_level, ns_level, db_level}
use surreal_dbservice.Dbs.Options
use surreal_dbservice.Dbs.Options.{Options, needs}
use surreal_dbservice.Sql.Definition.{kv_base, ns_base, db_base}
use surreal_dbservice.Sql.Run.{◌>>◌, call}
use surreal_dbservice.Sql.Run.Rules.{guarded-ok}
use surreal_dbservice.Sql.Statements.Selected.{at_ns, at_db}
use surreal_dbservice.Sql.Statements.Define.Guards.{AreSelected, permitted}
use surreal_dbservice.Sql.Statements.Remove.{
  Remove, namespace, database, login, token, scope, table, event, field, index, remove,
}
use surreal_dbservice.Sql.Statements.Remove.Guards.{levels}

module _ {E : Engine} {C : Catalog} (L : ScanLaws E) where
  -- How a statement ends: it succeeds, and the keys of the test are gone.
  abbrev Erases : Transaction E C → (Key → Bool) → Outcome E C (Unit {0}) → Type 0
  Erases t test o = (t' : Transaction E C) × (o ≡ some (ok tt, t')) × Gone L t test t'

  Erases-eq :
      (t : Transaction E C) (test : Key → Bool) {o o' : Outcome E C (Unit {0})}
      → o ≡ o'
      → Erases t test o'
      → Erases t test o
  Erases-eq t test e (t', e', g) = (t', e ∙ e', g)

  just : (k : Key) (t : Transaction E C) → IsOpen L t → Erases t (key_eq k) (some (del k t))
  just k t h = let (t', e, g) = del-Gone L k t h in (t', ap some e, g)

  then_delp :
      (k p : Key) (t : Transaction E C)
      → IsOpen L t
      → length (contents L t) ≤ u32_max
      → Erases t (λ j. key_eq k j || extends p j) ((call (del k) >> delp p u32_max) t)
  then_delp k p t h le =
      let (t1, e1, g1) = del-Gone L k t h in
      let (t2, e2, g2) = delp-Gone L p u32_max t1 g1.open_ (omega (arith, g1.shorter)) in
      (t2, rw e1 e2, Gone-both L (key_eq k) (extends p) g1 g2)

  then_delr :
      (k a b : Key) (t : Transaction E C)
      → IsOpen L t
      → length (contents L t) ≤ u32_max
      → Erases t (λ j. key_eq k j || inside a b j) ((call (del k) >> delr a b u32_max) t)
  then_delr k a b t h le =
      let (t1, e1, g1) = del-Gone L k t h in
      let (t2, e2, g2) = delr-Gone L a b u32_max t1 g1.open_ (omega (arith, g1.shorter)) in
      (t2, rw e1 e2, Gone-both L (key_eq k) (inside a b) g1 g2)

module _ (K : Storekey) where
  -- The keys that a statement has to erase, where a namespace and a database are selected.
  unfoldable pub erased : Remove → String → String → Key → Bool
  erased (namespace name) ns db j =
      key_eq (encode (Keys.Ns.new K name)) j || extends (encode (Keys.Namespace.new K name)) j
  erased (database name) ns db j =
      key_eq (encode (Keys.Db.new K ns name)) j || extends (encode (Keys.Database.new K ns name)) j
  erased (scope name) ns db j = key_eq (encode (Keys.Sc.new K ns db name)) j
  erased (table name) ns db j =
      key_eq (encode (Keys.Tb.new K ns db name)) j
      || extends (encode (Keys.Table.new K ns db name)) j
  erased (login name kv_base) ns db j = false
  erased (login name ns_base) ns db j = key_eq (encode (Keys.Nl.new K ns name)) j
  erased (login name db_base) ns db j = key_eq (encode (Keys.Dl.new K ns db name)) j
  erased (token name kv_base) ns db j = false
  erased (token name ns_base) ns db j = key_eq (encode (Keys.Nt.new K ns name)) j
  erased (token name db_base) ns db j = key_eq (encode (Keys.Dt.new K ns db name)) j
  erased (event name what) ns db j = key_eq (encode (Keys.Ev.new K ns db what name)) j
  erased (field name what) ns db j = key_eq (encode (Keys.Fd.new K ns db what name)) j
  erased (index name what) ns db j =
      key_eq (encode (Keys.Ix.new K ns db what name)) j
      || inside (Keys.Index.prefix K ns db what name) (Keys.Index.suffix K ns db what name) j

module _ {E : Engine} {C : Catalog} (K : Storekey) (L : ScanLaws E) where
  -- A permitted REMOVE statement succeeds on an open transaction that holds at most 2^32 - 1 pairs,
  -- where `ns` and `db` are the selected namespace and database as far as the statement needs them. The
  -- key of the name that the statement gives is gone and, for a namespace, a database, a table or an
  -- index, so are the keys below it; every other key has the value that it had. The key of a field is
  -- that of its name as it stands, which is not the key that DEFINE FIELD writes where the name is
  -- displayed escaped.
  pub remove_erases :
      (d : Remove) (o : Options) (ns db : String) (t : Transaction E C)
      → AreSelected (levels d) o ns db
      → is_some (levels d) ≡ true
      → permitted (levels d) o ≡ ok tt
      → IsOpen L t
      → length (contents L t) ≤ u32_max
      → (t' : Transaction E C) × (remove K d o t ≡ some (ok tt, t'))
        × Gone L t (erased K d ns db) t'
  unfolding levels remove erased
  remove_erases (namespace name) o ns db t sel s p h le =
      Erases-eq L t _ (guarded-ok (needs o kv_level) (Options.check o kv_level) _ t p)
        (then_delp L (encode (Keys.Ns.new K name)) (encode (Keys.Namespace.new K name)) t h le)
  remove_erases (database name) o ns db t sel s p h le =
      Erases-eq L t _
        (guarded-ok (needs o ns_level) (Options.check o ns_level) _ t p ∙ at_ns o _ t sel)
        (then_delp L (encode (Keys.Db.new K ns name)) (encode (Keys.Database.new K ns name)) t h le)
  remove_erases (scope name) o ns db t sel s p h le =
      Erases-eq L t _
        (guarded-ok (needs o db_level) (Options.check o db_level) _ t p ∙ at_db o _ t sel.0 sel.1)
        (just L (encode (Keys.Sc.new K ns db name)) t h)
  remove_erases (table name) o ns db t sel s p h le =
      Erases-eq L t _
        (guarded-ok (needs o db_level) (Options.check o db_level) _ t p ∙ at_db o _ t sel.0 sel.1)
        (then_delp L (encode (Keys.Tb.new K ns db name)) (encode (Keys.Table.new K ns db name)) t h
          le)
  remove_erases (login name kv_base) o ns db t sel s p h le = cc
  remove_erases (login name ns_base) o ns db t sel s p h le =
      Erases-eq L t _
        (guarded-ok (needs o ns_level) (Options.check o kv_level) _ t p ∙ at_ns o _ t sel)
        (just L (encode (Keys.Nl.new K ns name)) t h)
  remove_erases (login name db_base) o ns db t sel s p h le =
      Erases-eq L t _
        (guarded-ok (needs o db_level) (Options.check o ns_level) _ t p ∙ at_db o _ t sel.0 sel.1)
        (just L (encode (Keys.Dl.new K ns db name)) t h)
  remove_erases (token name kv_base) o ns db t sel s p h le = cc
  remove_erases (token name ns_base) o ns db t sel s p h le =
      Erases-eq L t _
        (guarded-ok (needs o ns_level) (Options.check o kv_level) _ t p ∙ at_ns o _ t sel)
        (just L (encode (Keys.Nt.new K ns name)) t h)
  remove_erases (token name db_base) o ns db t sel s p h le =
      Erases-eq L t _
        (guarded-ok (needs o db_level) (Options.check o ns_level) _ t p ∙ at_db o _ t sel.0 sel.1)
        (just L (encode (Keys.Dt.new K ns db name)) t h)
  remove_erases (event name what) o ns db t sel s p h le =
      Erases-eq L t _
        (guarded-ok (needs o db_level) (Options.check o db_level) _ t p ∙ at_db o _ t sel.0 sel.1)
        (just L (encode (Keys.Ev.new K ns db what name)) t h)
  remove_erases (field name what) o ns db t sel s p h le =
      Erases-eq L t _
        (guarded-ok (needs o db_level) (Options.check o db_level) _ t p ∙ at_db o _ t sel.0 sel.1)
        (just L (encode (Keys.Fd.new K ns db what name)) t h)
  remove_erases (index name what) o ns db t sel s p h le =
      Erases-eq L t _
        (guarded-ok (needs o db_level) (Options.check o db_level) _ t p ∙ at_db o _ t sel.0 sel.1)
        (then_delr L (encode (Keys.Ix.new K ns db what name)) (Keys.Index.prefix K ns db what name)
          (Keys.Index.suffix K ns db what name) t h le)
