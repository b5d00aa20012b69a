-- ===== src/Kvs/Definitions/Once.antt =====
-- lib/src/kvs/tx.rs: what the cache of definitions does to a second read, and strict mode.
use surreal_dbservice.Base.{
  String, ◌≡◌, refl, ap, sym, ◌∙◌, Bool, true, false, ◌&&◌, if◌then◌else◌, Option, none, some,
  some-injective, List,
}
use surreal_dbservice.Err.{Error, Result, ok, err}
use surreal_dbservice.Kvs.Engine.{Engine, Key, Val}
use surreal_dbservice.Kvs.Cache
use surreal_dbservice.Kvs.Cache.{Catalog, Entry, get-set_self}
use surreal_dbservice.Kvs.Order.{Pairs}
use surreal_dbservice.Kvs.Tx
use surreal_dbservice.Kvs.Tx.{Transaction}
use surreal_dbservice.Kvs.Batch.{getr}
use surreal_dbservice.Keys.{Storekey}
use surreal_dbservice.Kvs.Definitions.{
  Codec, Outcome, hit, decoded, listed, all_cached, all_of, add_of, add_cached, stored,
}
use surreal_dbservice.Kvs.Definitions.One.{
  get_ns, get_db, get_tb, get_and_cache_ns, get_and_cache_db, get_and_cache_tb,
}
use surreal_dbservice.Kvs.Definitions.Add.{
  add_ns, add_db, add_tb, add_and_cache_ns, add_and_cache_db, add_and_cache_tb,
}

module _ {E : Engine} {C : Catalog} {A : Type 0} where
  hit-eq :
      (o : Option A) (t t' : Transaction E C) (v : A)
      → hit o t ≡ some (ok v, t')
      → (o ≡ some v) × (t ≡ t')
  hit-eq none t t' v h = cc
  hit-eq (some w) t t' v h = (cc, cc)

module _ {E : Engine} {C : Catalog} {A : Type 0} (pick : Entry C → Option (List A))
    (entry : List A → Entry C) (decode : Val → A)
    (picks : (v : List A) → pick (entry v) ≡ some v) where
  listed-cached :
      (beg : Key) (o : Option (Result Pairs × Transaction E C)) (v : List A) (t' : Transaction E C)
      → listed beg entry decode o ≡ some (ok v, t')
      → Cache.get beg t'.cache ≡ some (entry v)
  unfolding listed
  listed-cached beg none v t' h = cc
  listed-cached beg (some (err e, t)) v t' h = cc
  listed-cached beg (some (ok res, t)) v t' h =
      let u : Transaction E C = record t {
        cache = Cache.set beg (entry (decoded decode res)) t.cache;
      } in
      let (same, kept) = hit-eq (some (decoded decode res)) u t' v h in
      ap (λ (x : Transaction E C). Cache.get beg x.cache) (sym kept)
      ∙ get-set_self beg (entry (decoded decode res)) t.cache
      ∙ ap (λ w. some (entry w)) (some-injective _ _ same)

  again :
      (beg end : Key) (o : Option (Entry C)) (t : Transaction E C) (v : List A)
      (t' u : Transaction E C)
      → Cache.get beg t.cache ≡ o
      → all_cached o beg end pick entry decode t ≡ some (ok v, t')
      → u.cache ≡ t'.cache
      → all_of beg end pick entry decode u ≡ some (ok v, u)
  unfolding all_of
  again beg end none t v t' u e h c =
      rw (c, listed-cached beg (getr beg end _ t) v t' h, picks v) refl
  again beg end (some x) t v t' u e h c =
      let (same, kept) = hit-eq (pick x) t t' v h in rw (c, ← kept, e, same) refl

  -- A list of definitions that a transaction has read once is read again from the cache: a second
  -- read in any transaction with the cache that the first read left, whatever was written to its
  -- store in the meantime, gives the same list and leaves that transaction as it is.
  pub all_of_again :
      (beg end : Key) (t : Transaction E C) (v : List A) (t' u : Transaction E C)
      → all_of beg end pick entry decode t ≡ some (ok v, t')
      → u.cache ≡ t'.cache
      → all_of beg end pick entry decode u ≡ some (ok v, u)
  unfolding all_of
  all_of_again beg end t v t' u h c = again beg end (Cache.get beg t.cache) t v t' u refl h c

module _ {E : Engine} {C : Catalog} {A : Type 0} where
  add_of-strict :
      (key : Key) (is_missing : Error → Bool) (encode : A → Val) (new : A)
      (r : Result A × Transaction E C)
      → add_of key is_missing true encode new r ≡ r
  unfolding add_of
  add_of-strict key is_missing encode new (ok v, t) = refl
  add_of-strict key is_missing encode new (err e, t) = kept (is_missing e)
    where
      kept :
          (b : Bool)
          → (if b && false then stored new (Tx.put key (encode new) t) else (err e, t)) ≡ (err e, t)
      kept true = refl
      kept false = refl

  add_cached-strict :
      (key : Key) (is_missing : Error → Bool) (encode : A → Val) (new : A) (o : Outcome E C A)
      → add_cached key is_missing true encode new o ≡ o
  add_cached-strict key is_missing encode new none = refl
  add_cached-strict key is_missing encode new (some r) =
      ap some (add_of-strict key is_missing encode new r)

module _ {E : Engine} {C : Catalog} (K : Storekey) (D : Codec C) where
  -- In strict mode the six `add_…` functions only read: each gives what its `get_…` function gives,
  -- with the transaction that it leaves.
  pub strict_adds_nothing :
      (ns db tb : String) (t : Transaction E C)
      → (add_ns K D ns true t ≡ get_ns K D ns t)
        × (add_db K D ns db true t ≡ get_db K D ns db t)
        × (add_tb K D ns db tb true t ≡ get_tb K D ns db tb t)
        × (add_and_cache_ns K D ns true t ≡ get_and_cache_ns K D ns t)
        × (add_and_cache_db K D ns db true t ≡ get_and_cache_db K D ns db t)
        × (add_and_cache_tb K D ns db tb true t ≡ get_and_cache_tb K D ns db tb t)
  unfolding add_ns add_db add_tb add_and_cache_ns add_and_cache_db add_and_cache_tb
  strict_adds_nothing ns db tb t = (
    add_of-strict _ _ D.encode_namespace (D.new_namespace ns) (get_ns K D ns t),
    add_of-strict _ _ D.encode_database (D.new_database db) (get_db K D ns db t),
    add_of-strict _ _ D.encode_table (D.new_table tb) (get_tb K D ns db tb t),
    add_cached-strict _ _ D.encode_namespace (D.new_namespace ns) (get_and_cache_ns K D ns t),
    add_cached-strict _ _ D.encode_database (D.new_database db) (get_and_cache_db K D ns db t),
    add_cached-strict _ _ D.encode_table (D.new_table tb) (get_and_cache_tb K D ns db tb t),
  )
