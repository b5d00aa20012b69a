-- ===== src/Doc/Known.antt =====
-- lib/src/doc on a record whose table is in the cache of the transaction.
use surreal_dbservice.Base.{◌≡◌, refl, String, Option, some}
use surreal_dbservice.Err.{ok}
use surreal_dbservice.Kvs.Engine.{Engine, Key, Val}
use surreal_dbservice.Kvs.Cache
use surreal_dbservice.Kvs.Cache.{Catalog, tb_entry}
use surreal_dbservice.Kvs.Tx.{Transaction, set}
use surreal_dbservice.Kvs.Definitions.{Codec, cached_of}
use surreal_dbservice.Kvs.Definitions.One.{get_and_cache_tb}
use surreal_dbservice.Keys.{Storekey, encode}
use surreal_dbservice.Keys
use surreal_dbservice.Dbs.Options.{Options}
use surreal_dbservice.Sql.Definition.{Parts, catalog, Table}
use surreal_dbservice.Sql.Run.{Run, ◌>>=◌, the}
use surreal_dbservice.Doc.{Document, Thing}
use surreal_dbservice.Doc.Schema.{tb}

pub the-eq :
    {E : Engine} {C : Catalog} {A B : Type 0} (m : Option A) (a : A) (f : A → Run E C B)
    (t : Transaction E C)
    → m ≡ some a
    → (the m >>= f) t ≡ f a t
the-eq m a f t h = rw h refl

module _ {E : Engine} (K : Storekey) (Q : Parts) where
  -- A namespace and a database are selected, and the table of the record is in the cache.
  pub record Known (ns db : String) (rid : Thing K) (o : Options) (table : Table Q)
      (t : Transaction E (catalog Q)) : Type 0 where
    pub ns_known : o.ns ≡ some ns
    pub db_known : o.db ≡ some db
    pub tb_known : Cache.get (encode (Keys.Tb.new K ns db rid.tb)) t.cache ≡ some (tb_entry table)

  pub tb-Known :
      (D : Codec (catalog Q)) (ns db : String) (rid : Thing K) (o : Options) (table : Table Q)
      (t : Transaction E (catalog Q)) (d : Document K Q.Value)
      → d.id ≡ some rid
      → Known ns db rid o table t
      → tb K Q D d o t ≡ some (ok table, t)
  unfolding tb get_and_cache_tb cached_of
  tb-Known D ns db rid o table t d e h = rw (h.ns_known, h.db_known, e, h.tb_known) refl

  -- A write keeps the cache.
  pub set-Known :
      (ns db : String) (rid : Thing K) (o : Options) (table : Table Q)
      (t : Transaction E (catalog Q)) (k : Key) (v : Val)
      → Known ns db rid o table t
      → Known ns db rid o table (set k v t).1
  unfolding set
  set-Known ns db rid o table t k v h = record {
    ns_known = h.ns_known;
    db_known = h.db_known;
    tb_known = h.tb_known;
  }

  pub Known-cache :
      (ns db : String) (rid : Thing K) (o : Options) (table : Table Q)
      (t t' : Transaction E (catalog Q))
      → t'.cache ≡ t.cache
      → Known ns db rid o table t
      → Known ns db rid o table t'
  Known-cache ns db rid o table t t' e h = record {
    ns_known = h.ns_known;
    db_known = h.db_known;
    tb_known = rw e h.tb_known;
  }

pub set-cache :
    {E : Engine} {C : Catalog} (k : Key) (v : Val) (t : Transaction E C)
    → (set k v t).1.cache ≡ t.cache
unfolding set
set-cache k v t = refl
