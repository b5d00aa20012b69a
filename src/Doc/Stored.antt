-- ===== src/Doc/Stored.antt =====
-- lib/src/doc/store.rs on an open transaction.
use surreal_dbservice.Base.{
  ◌≡◌, refl, Bool, not, ◌&&◌, ◌||◌, Bool-cases, inl, inr, some, String, if◌then◌else◌,
}
use surreal_dbservice.Err.{ok}
use surreal_dbservice.Kvs.Engine.{Engine, Key}
use surreal_dbservice.Kvs.Cache.{key_eq}
use surreal_dbservice.Kvs.Laws.{ScanLaws, PointLaws, find}
use surreal_dbservice.Kvs.Tx.{Transaction, set}
use surreal_dbservice.Kvs.Tx.Point.{set-open, set-eq_ok}
use surreal_dbservice.Kvs.Batch.Exact.{IsOpen, contents}
use surreal_dbservice.Kvs.Definitions.{Codec}
use surreal_dbservice.Keys.{Storekey, encode}
use surreal_dbservice.Keys
use surreal_dbservice.Dbs.Options.{Options}
use surreal_dbservice.Sql.Definition.{Parts, catalog, Table}
use surreal_dbservice.Doc.{Document, Thing, World, changed}
use surreal_dbservice.Doc.Known.{Known, tb-Known, set-cache}
use surreal_dbservice.Doc.Save.{store}

module _ {E : Engine} {K : Storekey} {Q : Parts} (D : Codec (catalog Q)) (W : World E K Q) where
  abbrev pub record_key : String → String → Thing K → Key
  record_key ns db rid = encode (Keys.Thing.new K ns db rid.tb rid.id)

  -- neither changed nor forced, or in a table that keeps no records
  abbrev pub skips : Options → Document K Q.Value → Table Q → Bool
  skips o d table = not o.force && not (changed W d) || table.drop

module _ {E : Engine} {K : Storekey} {Q : Parts} {L : ScanLaws E} (P : PointLaws E L)
    (D : Codec (catalog Q)) (W : World E K Q) where
  -- How the record of a table that the cache holds is saved: it is written under its key, unless it is
  -- neither changed nor forced or the table keeps no records; no other key and no entry of the
  -- cache changes, and no error is possible on an open transaction.
  pub store_writes :
      (ns db : String) (rid : Thing K) (o : Options) (table : Table Q)
      (t : Transaction E (catalog Q)) (d : Document K Q.Value)
      → d.id ≡ some rid
      → IsOpen L t
      → Known K Q ns db rid o table t
      → (t' : Transaction E (catalog Q)) × (store D W o d t ≡ some (ok tt, t'))
        × IsOpen L t'
        × (t'.cache ≡ t.cache)
        × ((j : Key)
            → find j (contents L t') ≡ (
                if not (skips D W o d table) && key_eq (record_key D W ns db rid) j
                then some (W.encode_value d.current)
                else find j (contents L t)))
  unfolding store
  store_writes ns db rid o table t d e h known =
      let key = record_key D W ns db rid in
      let v = W.encode_value d.current in
      let (_, open1, look) = set-open P key v t h in
      let there = tb-Known K Q D ns db rid o table t d e known in
      elim (Bool-cases (not o.force && not (changed W d))) [
        | inl same ↦ (t, rw same refl, h, refl, λ j. rw same refl)
        | inr moved ↦ elim (Bool-cases table.drop) [
          | inl gone ↦ (t, rw (moved, there, gone) refl, h, refl, λ j. rw (moved, gone) refl)
          | inr kept ↦ (
            (set key v t).1,
            rw (moved, there, kept, e, known.ns_known, known.db_known, set-eq_ok P key v t h) refl,
            open1,
            set-cache key v t,
            λ j. rw (moved, kept) (look j),
          )
        ]
      ]
