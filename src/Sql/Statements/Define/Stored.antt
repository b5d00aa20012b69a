-- ===== src/Sql/Statements/Define/Stored.antt =====
-- What the statements of lib/src/sql/statements/define.rs store on an open transaction.
use surreal_dbservice.Base.{◌≡◌, refl, ap, ◌∙◌, Bool, true, false, not, some, String, is_some}
use surreal_dbservice.Err.{ok}
use surreal_dbservice.Kvs.Engine.{Engine, Key, Val}
use surreal_dbservice.Kvs.Cache.{key_eq, key_eq_refl}
use surreal_dbservice.Kvs.Laws.{ScanLaws, PointLaws, find}
use surreal_dbservice.Kvs.Tx.{Transaction, set}
use surreal_dbservice.Kvs.Tx.Point.{set-open}
use surreal_dbservice.Kvs.Batch.Exact.{IsOpen, contents}
use surreal_dbservice.Kvs.Definitions.{Codec, Outcome}
use surreal_dbservice.Kvs.Definitions.Add.{add_ns, add_db, add_tb}
use surreal_dbservice.Kvs.Definitions.Grow.{
  Grown, Grown-refl, Grown-trans, add_ns-Grown, add_db-Grown, add_tb-Grown,
}
use surreal_dbservice.Keys.{Storekey, encode}
use surreal_dbservice.Keys
use surreal_dbservice.Sql.Definition.{Parts, Encoder, catalog, Base, ns_base}
use surreal_dbservice.Sql.Run.{Run, ◌>>◌, call, call_}
use surreal_dbservice.Sql.Statements.Define

module _ (K : Storekey) where
  abbrev pub login_key : Base → String → String → String → Key
  login_key ns_base ns db name = encode (Keys.Nl.new K ns name)
  login_key _ ns db name = encode (Keys.Dl.new K ns db name)

  abbrev pub token_key : Base → String → String → String → Key
  token_key ns_base ns db name = encode (Keys.Nt.new K ns name)
  token_key _ ns db name = encode (Keys.Dt.new K ns db name)

  -- The key of a definition, where a namespace and a database are selected.
  unfoldable pub key_of : {Q : Parts} → Define.Define Q → String → String → Key
  key_of (Define.namespace s) ns db = encode (Keys.Ns.new K s.name)
  key_of (Define.database s) ns db = encode (Keys.Db.new K ns s.name)
  key_of (Define.login s) ns db = login_key s.base ns db s.name
  key_of (Define.token s) ns db = token_key s.base ns db s.name
  key_of (Define.scope s) ns db = encode (Keys.Sc.new K ns db s.name)
  key_of (Define.table s) ns db = encode (Keys.Tb.new K ns db s.name)
  key_of (Define.event s) ns db = encode (Keys.Ev.new K ns db s.what s.name)
  key_of {Q} (Define.field s) ns db = encode (Keys.Fd.new K ns db s.what (Q.idiom_text s.name))
  key_of (Define.index s) ns db = encode (Keys.Ix.new K ns db s.what s.name)

module _ {Q : Parts} (D : Codec (catalog Q)) (W : Encoder Q) where
  unfoldable pub encoded : Define.Define Q → Val
  encoded (Define.namespace s) = D.encode_namespace s
  encoded (Define.database s) = D.encode_database s
  encoded (Define.login s) = W.encode_login s
  encoded (Define.token s) = W.encode_token s
  encoded (Define.scope s) = W.encode_scope s
  encoded (Define.table s) = D.encode_table s
  encoded (Define.event s) = W.encode_event s
  encoded (Define.field s) = W.encode_field s
  encoded (Define.index s) = W.encode_index s

-- A definition that needs no rebuilding of data: neither a view nor an index.
unfoldable pub is_plain : {Q : Parts} → Define.Define Q → Bool
is_plain (Define.table s) = not (is_some s.view)
is_plain (Define.index s) = false
is_plain (Define.namespace s) = true
is_plain (Define.database s) = true
is_plain (Define.login s) = true
is_plain (Define.token s) = true
is_plain (Define.scope s) = true
is_plain (Define.event s) = true
is_plain (Define.field s) = true

module _ {E : Engine} {Q : Parts} {L : ScanLaws E} (P : PointLaws E L) where
  -- From one transaction to another `v` stands under the key, and nothing else that was there has
  -- changed.
  pub record Stored (t : Transaction E (catalog Q)) (k : Key) (v : Val)
      (t' : Transaction E (catalog Q)) : Type 0 where
    pub open_ : IsOpen L t'
    pub stored : find k (contents L t') ≡ some v
    pub kept :
        (j : Key) (w : Val)
        → key_eq k j ≡ false
        → find j (contents L t) ≡ some w
        → find j (contents L t') ≡ some w

  -- How a statement ends: it succeeds, and has stored the definition.
  abbrev pub Stores :
      Transaction E (catalog Q) → Key → Val → Outcome E (catalog Q) (Unit {0}) → Type 0
  Stores t k v o = (t' : Transaction E (catalog Q)) × (o ≡ some (ok tt, t')) × Stored t k v t'

  pub Stores-eq :
      (t : Transaction E (catalog Q)) (k : Key) (v : Val) {o o' : Outcome E (catalog Q) (Unit {0})}
      → o ≡ o'
      → Stores t k v o'
      → Stores t k v o
  Stores-eq t k v e (t', e', g) = (t', e ∙ e', g)

  pub written :
      (k : Key) (v : Val) (t t1 : Transaction E (catalog Q))
      → Grown P t t1
      → Stores t k v (some (set k v t1))
  written k v t t1 g =
      let (good_, open_, lookups) = set-open P k v t1 g.open_ in
      (
        (set k v t1).1,
        ap (λ r. some (r, (set k v t1).1)) good_,
        record {
          open_ = open_;
          stored = lookups k ∙ rw (key_eq_refl k) refl;
          kept = λ j w other e. lookups j ∙ rw other (g.kept j w e);
        },
      )

  module _ (K : Storekey) (D : Codec (catalog Q)) (strict : Bool) (lax : strict ≡ false) where
    pub with_ns :
        (ns : String) (k : Key) (v : Val) (f : Run E (catalog Q) (Unit {0}))
        (t t1 : Transaction E (catalog Q))
        → Grown P t t1
        → ((t2 : Transaction E (catalog Q)) → Grown P t t2 → Stores t k v (f t2))
        → Stores t k v ((call_ (add_ns K D ns strict) >> f) t1)
    with_ns ns k v f t t1 g rest =
        let (_, t2, e, h) = add_ns-Grown P K D ns t1 g.open_ in
        rw (lax, e) (rest t2 (Grown-trans P g h))

    pub with_db :
        (ns db : String) (k : Key) (v : Val) (f : Run E (catalog Q) (Unit {0}))
        (t t1 : Transaction E (catalog Q))
        → Grown P t t1
        → ((t2 : Transaction E (catalog Q)) → Grown P t t2 → Stores t k v (f t2))
        → Stores t k v ((call_ (add_db K D ns db strict) >> f) t1)
    with_db ns db k v f t t1 g rest =
        let (_, t2, e, h) = add_db-Grown P K D ns db t1 g.open_ in
        rw (lax, e) (rest t2 (Grown-trans P g h))

    with_tb :
        (ns db tb : String) (k : Key) (v : Val) (f : Run E (catalog Q) (Unit {0}))
        (t t1 : Transaction E (catalog Q))
        → Grown P t t1
        → ((t2 : Transaction E (catalog Q)) → Grown P t t2 → Stores t k v (f t2))
        → Stores t k v ((call_ (add_tb K D ns db tb strict) >> f) t1)
    with_tb ns db tb k v f t t1 g rest =
        let (_, t2, e, h) = add_tb-Grown P K D ns db tb t1 g.open_ in
        rw (lax, e) (rest t2 (Grown-trans P g h))

    pub in_ns :
        (ns : String) (k : Key) (v : Val) (t : Transaction E (catalog Q))
        → IsOpen L t
        → Stores t k v ((call_ (add_ns K D ns strict) >> call (set k v)) t)
    in_ns ns k v t h = with_ns ns k v (call (set k v)) t t (Grown-refl P t h) (written k v t)

    pub in_db :
        (ns db : String) (k : Key) (v : Val) (t : Transaction E (catalog Q))
        → IsOpen L t
        → Stores t k v (
            (call_ (add_ns K D ns strict) >> (call_ (add_db K D ns db strict) >> call (set k v))) t)
    in_db ns db k v t h =
        with_ns ns k v (call_ (add_db K D ns db strict) >> call (set k v)) t t (Grown-refl P t h)
          (λ t1 g. with_db ns db k v (call (set k v)) t t1 g (written k v t))

    pub in_tb :
        (ns db tb : String) (k : Key) (v : Val) (t : Transaction E (catalog Q))
        → IsOpen L t
        → Stores t k v (
            (call_ (add_ns K D ns strict)
                >> (call_ (add_db K D ns db strict)
                    >> (call_ (add_tb K D ns db tb strict) >> call (set k v))))
              t)
    in_tb ns db tb k v t h =
        with_ns ns k v
          (call_ (add_db K D ns db strict)
            >> (call_ (add_tb K D ns db tb strict) >> call (set k v)))
          t t (Grown-refl P t h)
          (λ t1 g.
            with_db ns db k v (call_ (add_tb K D ns db tb strict) >> call (set k v)) t t1 g
              (λ t2 g2. with_tb ns db tb k v (call (set k v)) t t2 g2 (written k v t)))
