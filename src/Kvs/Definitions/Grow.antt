-- ===== src/Kvs/Definitions/Grow.antt =====
-- What the functions `add_…` of lib/src/kvs/tx.rs leave on an open transaction.
use surreal_dbservice.Base.{
  ◌≡◌, refl, ap, ◌∙◌, Bool, true, false, Option, none, some, String, if◌then◌else◌,
}
use surreal_dbservice.Err.{ok, Error, ns_not_found, db_not_found, tb_not_found}
use surreal_dbservice.Kvs.Engine.{Engine, Key, Val}
use surreal_dbservice.Kvs.Cache.{Catalog, key_eq, key_eq_sound}
use surreal_dbservice.Kvs.Laws.{ScanLaws, PointLaws, find}
use surreal_dbservice.Kvs.Tx.{Transaction, set}
use surreal_dbservice.Kvs.Tx.Point.{get-open, set-open, put-absent}
use surreal_dbservice.Kvs.Batch.Exact.{IsOpen, contents}
use surreal_dbservice.Kvs.Definitions.{Codec, found, one_of, add_of, stored}
use surreal_dbservice.Kvs.Definitions.One.{get_ns, get_db, get_tb}
use surreal_dbservice.Kvs.Definitions.Add.{
  add_ns, add_db, add_tb, is_ns_not_found, is_db_not_found, is_tb_not_found,
}
use surreal_dbservice.Keys.{Storekey, encode}
use surreal_dbservice.Keys

module _ {E : Engine} {C : Catalog} {L : ScanLaws E} (P : PointLaws E L) where
  -- An open transaction that holds at least what the first one holds.
  pub record Grown (t t' : Transaction E C) : Type 0 where
    pub open_ : IsOpen L t'
    pub kept :
        (j : Key) (v : Val) → find j (contents L t) ≡ some v → find j (contents L t') ≡ some v

  pub Grown-refl : (t : Transaction E C) → IsOpen L t → Grown t t
  Grown-refl t h = record { open_ = h; kept = λ j v e. e }

  pub Grown-trans : {t t1 t2 : Transaction E C} → Grown t t1 → Grown t1 t2 → Grown t t2
  Grown-trans g h = record { open_ = h.open_; kept = λ j v e. h.kept j v (g.kept j v e) }

  set-eq :
      (k : Key) (v : Val) (t : Transaction E C) → IsOpen L t → set k v t ≡ (ok tt, (set k v t).1)
  set-eq k v t h = ap (λ r. (r, (set k v t).1)) (set-open P k v t h).0

  Written-Grown :
      (k : Key) (v : Val) (t : Transaction E C)
      → IsOpen L t
      → find k (contents L t) ≡ none
      → Grown t (set k v t).1
  Written-Grown k v t h e =
      let (_, open_, lookups) = set-open P k v t h in
      record { open_ = open_; kept = λ j w f. lookups j ∙ if_other k j (key_eq k j) v w t refl e f }
    where
      if_other :
          (k j : Key) (b : Bool) (v w : Val) (t : Transaction E C)
          → key_eq k j ≡ b
          → find k (contents L t) ≡ none
          → find j (contents L t) ≡ some w
          → (if b then some v else find j (contents L t)) ≡ some w
      if_other k j true v w t eq e f =
          let p = key_eq_sound k j eq in cc (ap (λ i. find i (contents L t)) p)
      if_other k j false v w t eq e f = f

  -- An `add_…` call succeeds, and takes nothing away.
  module _ {A : Type 0} (key : Key) (missing : Error) (is_missing : Error → Bool)
      (told : is_missing missing ≡ true) (decode : Val → A) (enc : A → Val) (new : A) where
    add_of-Grown :
        (o : Option Val) (t : Transaction E C)
        → IsOpen L t
        → find key (contents L t) ≡ o
        → (v : A) × (t' : Transaction E C) × (add_of key is_missing false enc new
              (found missing decode (ok o, t))
            ≡ (ok v, t'))
          × Grown t t'
    unfolding add_of found
    add_of-Grown (some v) t h e = (decode v, t, refl, Grown-refl t h)
    add_of-Grown none t h e = (
      new,
      (set key (enc new) t).1,
      rw told (ap (stored new) (put-absent P key (enc new) t h e ∙ set-eq key (enc new) t h)),
      Written-Grown key (enc new) t h e,
    )

    add-Grown :
        (t : Transaction E C)
        → IsOpen L t
        → (v : A) × (t' : Transaction E C) × (add_of key is_missing false enc new
              (one_of key missing decode t)
            ≡ (ok v, t'))
          × Grown t t'
    unfolding one_of
    add-Grown t h = rw (get-open P key t h) (add_of-Grown (find key (contents L t)) t h refl)

  module _ (K : Storekey) (D : Codec C) where
    -- Outside strict mode the `add_…` functions succeed on an open transaction and only add.
    pub add_ns-Grown :
        (ns : String) (t : Transaction E C)
        → IsOpen L t
        → (v : C.Namespace) × (t' : Transaction E C) × (add_ns K D ns false t ≡ (ok v, t'))
          × Grown t t'
    unfolding add_ns get_ns
    add_ns-Grown ns t h =
        add-Grown (encode (Keys.Ns.new K ns)) ns_not_found is_ns_not_found refl D.decode_namespace
          D.encode_namespace (D.new_namespace ns) t h

    pub add_db-Grown :
        (ns db : String) (t : Transaction E C)
        → IsOpen L t
        → (v : C.Database) × (t' : Transaction E C) × (add_db K D ns db false t ≡ (ok v, t'))
          × Grown t t'
    unfolding add_db get_db
    add_db-Grown ns db t h =
        add-Grown (encode (Keys.Db.new K ns db)) db_not_found is_db_not_found refl D.decode_database
          D.encode_database (D.new_database db) t h

    pub add_tb-Grown :
        (ns db tb : String) (t : Transaction E C)
        → IsOpen L t
        → (v : C.Table) × (t' : Transaction E C) × (add_tb K D ns db tb false t ≡ (ok v, t'))
          × Grown t t'
    unfolding add_tb get_tb
    add_tb-Grown ns db tb t h =
        add-Grown (encode (Keys.Tb.new K ns db tb)) tb_not_found is_tb_not_found refl D.decode_table
          D.encode_table (D.new_table tb) t h
