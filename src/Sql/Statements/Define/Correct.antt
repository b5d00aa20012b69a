-- ===== src/Sql/Statements/Define/Correct.antt =====
-- The DEFINE statements of lib/src/sql/statements/define.rs on an open transaction.
use surreal_dbservice.Base.{◌≡◌, refl, ◌∙◌, true, false, not, Option, none, some, String, is_some}
use surreal_dbservice.Err.{ok}
use surreal_dbservice.Kvs.Engine.{Engine}
use surreal_dbservice.Kvs.Laws.{ScanLaws, PointLaws}
use surreal_dbservice.Kvs.Tx.{Transaction, set}
use surreal_dbservice.Kvs.Batch.Exact.{IsOpen}
use surreal_dbservice.Kvs.Definitions.{Codec}
use surreal_dbservice.Kvs.Definitions.Grow.{Grown-refl}
use surreal_dbservice.Kvs.Definitions.Add.{add_ns, add_db}
use surreal_dbservice.Keys.{Storekey, encode}
use surreal_dbservice.Keys
use surreal_dbservice.Dbs.Auth.{kv_level, ns_level, db_level}
use surreal_dbservice.Dbs.Options
use surreal_dbservice.Dbs.Options.{Options, needs}
use surreal_dbservice.Sql.Definition.{
  Parts, Encoder, catalog, Base, kv_base, ns_base, db_base, Login, Token, Table, View,
}
use surreal_dbservice.Sql.Run.{Run, ◌>>◌, call, call_, pure}
use surreal_dbservice.Sql.Run.Rules.{guarded-ok}
use surreal_dbservice.Sql.Statements.Selected.{at_ns, at_db}
use surreal_dbservice.Sql.Statements.Define.Guards.{AreSelected, levels, levels_on, permitted}
use surreal_dbservice.Sql.Statements.Define.Stored.{
  key_of, login_key, token_key, encoded, is_plain, Stored, Stores, Stores-eq, written, with_ns,
  with_db, in_ns, in_db, in_tb,
}
use surreal_dbservice.Sql.Statements.Define

module _ {E : Engine} {Q : Parts} {L : ScanLaws E} (P : PointLaws E L) (K : Storekey)
    (D : Codec (catalog Q)) (W : Encoder Q)
    (update : String → Options → Run E (catalog Q) (Unit {0})) where
  login_stores :
      (b : Base) (s : Login) (o : Options) (ns db : String) (t : Transaction E (catalog Q))
      → AreSelected (levels_on b) o ns db
      → o.strict ≡ false
      → is_some (levels_on b) ≡ true
      → permitted (levels_on b) o ≡ ok tt
      → IsOpen L t
      → Stores P t
          (login_key K b ns db s.name)
          (W.encode_login s)
          (Define.define_login_on K Q D W update b s o t)
  unfolding Define.define_login_ns Define.define_login_db
  login_stores kv_base s o ns db t sel lax b p h = cc
  login_stores ns_base s o ns db t sel lax b p h =
      Stores-eq P t _ _
        (guarded-ok (needs o ns_level) (Options.check o kv_level) _ t p ∙ at_ns o _ t sel)
        (in_ns P K D o.strict lax ns (encode (Keys.Nl.new K ns s.name)) (W.encode_login s) t h)
  login_stores db_base s o ns db t sel lax b p h =
      Stores-eq P t _ _
        (guarded-ok (needs o db_level) (Options.check o ns_level) _ t p ∙ at_db o _ t sel.0 sel.1)
        (in_db P K D o.strict lax ns db (encode (Keys.Dl.new K ns db s.name)) (W.encode_login s) t
          h)

  token_stores :
      (b : Base) (s : Token) (o : Options) (ns db : String) (t : Transaction E (catalog Q))
      → AreSelected (levels_on b) o ns db
      → o.strict ≡ false
      → is_some (levels_on b) ≡ true
      → permitted (levels_on b) o ≡ ok tt
      → IsOpen L t
      → Stores P t
          (token_key K b ns db s.name)
          (W.encode_token s)
          (Define.define_token_on K Q D W update b s o t)
  unfolding Define.define_token_ns Define.define_token_db
  token_stores kv_base s o ns db t sel lax b p h = cc
  token_stores ns_base s o ns db t sel lax b p h =
      Stores-eq P t _ _
        (guarded-ok (needs o ns_level) (Options.check o kv_level) _ t p ∙ at_ns o _ t sel)
        (in_ns P K D o.strict lax ns (encode (Keys.Nt.new K ns s.name)) (W.encode_token s) t h)
  token_stores db_base s o ns db t sel lax b p h =
      Stores-eq P t _ _
        (guarded-ok (needs o db_level) (Options.check o ns_level) _ t p ∙ at_db o _ t sel.0 sel.1)
        (in_db P K D o.strict lax ns db (encode (Keys.Dt.new K ns db s.name)) (W.encode_token s) t
          h)

  -- a table without a view
  table_stores :
      (view : Option (View Q)) (s : Table Q) (o : Options) (ns db : String)
      (t : Transaction E (catalog Q))
      → o.strict ≡ false
      → not (is_some view) ≡ true
      → IsOpen L t
      → let k = encode (Keys.Tb.new K ns db s.name) in
        Stores P t k (D.encode_table s) (
          (call_ (add_ns K D ns o.strict)
              >> (call_ (add_db K D ns db o.strict)
                  >> (call (set k (D.encode_table s))
                      >> Define.define_view K Q D W update ns db s o view)))
            t)
  table_stores (some v) s o ns db t lax pl h = cc
  table_stores none s o ns db t lax pl h =
      let k = encode (Keys.Tb.new K ns db s.name) in
      let v = D.encode_table s in
      let last : Run E (catalog Q) (Unit {0}) = call (set k v) >> pure tt in
      with_ns P K D o.strict lax ns k v (call_ (add_db K D ns db o.strict) >> last) t t
        (Grown-refl P t h)
        (λ t1 g.
          with_db P K D o.strict lax ns db k v last t t1 g
            (λ t2 g2. let (t3, e, st) = written P k v t t2 g2 in (t3, rw e refl, st)))

  -- A permitted DEFINE statement outside strict mode, of anything but a view or an index, succeeds on
  -- an open transaction, where `ns` and `db` are the selected namespace and database as far as the
  -- statement needs them: the definition stands under its key, and whatever else was there before is
  -- there as before.
  pub define_stores :
      (d : Define.Define Q) (o : Options) (ns db : String) (t : Transaction E (catalog Q))
      → AreSelected (levels d) o ns db
      → o.strict ≡ false
      → is_plain d ≡ true
      → is_some (levels d) ≡ true
      → permitted (levels d) o ≡ ok tt
      → IsOpen L t
      → (t' : Transaction E (catalog Q)) × (Define.define K Q D W update d o t ≡ some (ok tt, t'))
        × Stored P t (key_of K d ns db) (encoded D W d) t'
  unfolding levels is_plain key_of encoded Define.define
  define_stores (Define.namespace s) o ns db t sel lax pl b p h =
      Stores-eq P t _ _ (guarded-ok (needs o kv_level) (Options.check o kv_level) _ t p)
        (written P (encode (Keys.Ns.new K s.name)) (D.encode_namespace s) t t (Grown-refl P t h))
  define_stores (Define.database s) o ns db t sel lax pl b p h =
      Stores-eq P t _ _
        (guarded-ok (needs o ns_level) (Options.check o ns_level) _ t p ∙ at_ns o _ t sel)
        (in_ns P K D o.strict lax ns (encode (Keys.Db.new K ns s.name)) (D.encode_database s) t h)
  define_stores (Define.login s) o ns db t sel lax pl b p h =
      login_stores s.base s o ns db t sel lax b p h
  define_stores (Define.token s) o ns db t sel lax pl b p h =
      token_stores s.base s o ns db t sel lax b p h
  define_stores (Define.scope s) o ns db t sel lax pl b p h =
      Stores-eq P t _ _
        (guarded-ok (needs o db_level) (Options.check o db_level) _ t p ∙ at_db o _ t sel.0 sel.1)
        (in_db P K D o.strict lax ns db (encode (Keys.Sc.new K ns db s.name)) (W.encode_scope s) t
          h)
  define_stores (Define.table s) o ns db t sel lax pl b p h =
      Stores-eq P t _ _
        (guarded-ok (needs o db_level) (Options.check o db_level) _ t p ∙ at_db o _ t sel.0 sel.1)
        (table_stores s.view s o ns db t lax pl h)
  define_stores (Define.event s) o ns db t sel lax pl b p h =
      Stores-eq P t _ _
        (guarded-ok (needs o db_level) (Options.check o db_level) _ t p ∙ at_db o _ t sel.0 sel.1)
        (in_tb P K D o.strict lax ns db s.what (encode (Keys.Ev.new K ns db s.what s.name))
          (W.encode_event s) t h)
  define_stores (Define.field s) o ns db t sel lax pl b p h =
      Stores-eq P t _ _
        (guarded-ok (needs o db_level) (Options.check o db_level) _ t p ∙ at_db o _ t sel.0 sel.1)
        (in_tb P K D o.strict lax ns db s.what
          (encode (Keys.Fd.new K ns db s.what (Q.idiom_text s.name))) (W.encode_field s) t h)
  define_stores (Define.index s) o ns db t sel lax pl b p h = cc
