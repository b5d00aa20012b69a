-- ===== src/Doc/Bare.antt =====
-- lib/src/doc on a record of a table without fields, indexes and events.
use surreal_dbservice.Base.{
  ◌≡◌, refl, true, false, not, ◌&&◌, Bool-cases, inl, inr, Option, none, some, [], String,
  if◌then◌else◌,
}
use surreal_dbservice.Err.{ok}
use surreal_dbservice.Kvs.Engine.{Engine, Key}
use surreal_dbservice.Kvs.Cache
use surreal_dbservice.Kvs.Cache.{fds_entry, ixs_entry, evs_entry, key_eq}
use surreal_dbservice.Kvs.Laws.{ScanLaws, PointLaws, find}
use surreal_dbservice.Kvs.Tx.{Transaction}
use surreal_dbservice.Kvs.Batch.Exact.{IsOpen, contents}
use surreal_dbservice.Kvs.Definitions.{Codec, all_of}
use surreal_dbservice.Kvs.Definitions.All.{all_fd, all_ix, all_ev}
use surreal_dbservice.Keys.{Storekey, encode}
use surreal_dbservice.Keys
use surreal_dbservice.Ctx.{Context}
use surreal_dbservice.Dbs.Options.{Options}
use surreal_dbservice.Sql.Definition.{Parts, catalog, Table}
use surreal_dbservice.Doc.{Document, Thing, Statement, World, changed}
use surreal_dbservice.Doc.Known.{Known, tb-Known, Known-cache}
use surreal_dbservice.Doc.Schema.{fd, ix, ev}
use surreal_dbservice.Doc.Checks.{exist, exist_id, allow, guarded_by_perms}
use surreal_dbservice.Doc.Stored.{skips, record_key, store_writes}
use surreal_dbservice.Doc.Edit.{alter}
use surreal_dbservice.Doc.Fields.{field, clean}
use surreal_dbservice.Doc.Index.{index}
use surreal_dbservice.Doc.Event.{event}
use surreal_dbservice.Doc.Pluck.{pluck}
use surreal_dbservice.Doc.Process.{create}

module _ {E : Engine} (K : Storekey) (Q : Parts) where
  -- The table of the record is in the cache, and so are its empty lists of definitions.
  pub record Bare (ns db : String) (rid : Thing K) (o : Options) (table : Table Q)
      (t : Transaction E (catalog Q)) : Type 0 where
    pub known : Known K Q ns db rid o table t
    pub fds : Cache.get (Keys.Fd.prefix K ns db rid.tb) t.cache ≡ some (fds_entry [])
    pub ixs : Cache.get (Keys.Ix.prefix K ns db rid.tb) t.cache ≡ some (ixs_entry [])
    pub evs : Cache.get (Keys.Ev.prefix K ns db rid.tb) t.cache ≡ some (evs_entry [])

module _ {E : Engine} {K : Storekey} {Q : Parts} (D : Codec (catalog Q)) (W : World E K Q)
    (ctx : Context Q.Value) (o : Options) (s : Statement Q.Idiom Q.Value W.Fields) (ns db : String)
    (rid : Thing K) (table : Table Q) where
  field-Bare :
      (d : Document K Q.Value) (t : Transaction E (catalog Q))
      → d.id ≡ some rid
      → Bare K Q ns db rid o table t
      → field D W ctx o s d t ≡ some (ok d, t)
  unfolding field fd all_fd all_of
  field-Bare d t e h = rw (e, h.known.ns_known, h.known.db_known, h.fds) refl

  clean-Bare :
      (d : Document K Q.Value) (t : Transaction E (catalog Q))
      → d.id ≡ some rid
      → table.full ≡ false
      → Bare K Q ns db rid o table t
      → clean D W ctx o d t ≡ some (ok d, t)
  unfolding clean
  clean-Bare d t e loose h = rw (tb-Known K Q D ns db rid o table t d e h.known, loose) refl

  index-Bare :
      (d : Document K Q.Value) (t : Transaction E (catalog Q))
      → d.id ≡ some rid
      → Bare K Q ns db rid o table t
      → index D W ctx o d t ≡ some (ok tt, t)
  unfolding index ix all_ix all_of
  index-Bare d t e h = elim (Bool-cases (not o.force && not (changed W d))) [
    | inl same ↦ rw same refl
    | inr moved ↦ elim (Bool-cases table.drop) [
      | inl gone ↦ rw (moved, tb-Known K Q D ns db rid o table t d e h.known, gone) refl
      | inr kept ↦
          rw (moved, tb-Known K Q D ns db rid o table t d e h.known, kept)
            (rw (e, h.known.ns_known, h.known.db_known, h.ixs) refl)
    ]
  ]

  event-Bare :
      (d : Document K Q.Value) (t : Transaction E (catalog Q))
      → d.id ≡ some rid
      → Bare K Q ns db rid o table t
      → event D W ctx o s d t ≡ some (ok tt, t)
  unfolding event ev all_ev all_of
  event-Bare d t e h = elim (Bool-cases (not o.events)) [
    | inl off ↦ rw off refl
    | inr on_ ↦ elim (Bool-cases (not o.force && not (changed W d))) [
      | inl same ↦ rw (on_, same) refl
      | inr moved ↦ rw (on_, moved) (rw (e, h.known.ns_known, h.known.db_known, h.evs) refl)
    ]
  ]

module _ {E : Engine} {K : Storekey} {Q : Parts} {L : ScanLaws E} (P : PointLaws E L)
    (D : Codec (catalog Q)) (W : World E K Q) where
  exist-fresh :
      (d : Document K Q.Value) (t : Transaction E (catalog Q))
      → W.is_none d.current ≡ true
      → exist D W d t ≡ some (ok tt, t)
  unfolding exist
  exist-fresh d t fresh = on_id d.id
    where
      on_id : (i : Option (Thing K)) → exist_id D W i d t ≡ some (ok tt, t)
      on_id none = refl
      on_id (some id) = rw fresh refl

  -- What a CREATE comes to that permissions do not concern, in a schemaless table of which the cache
  -- holds no fields, indexes and events, on an open transaction: where there is no such record yet, the
  -- statement's data make it into `v`, and no view changes the store, the record is written under its
  -- key, no other key changes, and the answer is what the output clause takes from the new record.
  -- Where the store is skipped (`skips`: the table drops its records, or the record is as it was and
  -- the options do not force it), nothing is written, with the same answer.
  pub create_stores :
      (ctx : Context Q.Value) (o : Options) (s : Statement Q.Idiom Q.Value W.Fields)
      (ns db : String) (rid : Thing K) (table : Table Q) (t : Transaction E (catalog Q))
      (d : Document K Q.Value) (v : Q.Value)
      → d.id ≡ some rid
      → W.is_none d.current ≡ true
      → table.full ≡ false
      → guarded_by_perms D W o d ≡ false
      → alter D W ctx o s d t ≡ some (ok (record d { current = v }), t)
      → ((u : Transaction E (catalog Q))
          → W.table (record d { current = v }) ctx o s u ≡ some (ok tt, u))
      → IsOpen L t
      → Bare K Q ns db rid o table t
      → (t' : Transaction E (catalog Q)) × (create D W ctx o s d t
          ≡ pluck D W ctx o s (record d { current = v }) t')
        × IsOpen L t'
        × ((j : Key)
            → find j (contents L t') ≡ (
                if not (skips D W o (record d { current = v }) table)
                  && key_eq (record_key D W ns db rid) j
                then some (W.encode_value v)
                else find j (contents L t)))
  unfolding create exist allow guarded_by_perms
  create_stores ctx o s ns db rid table t d v e fresh loose unguarded altered no_views h bare =
      let d' : Document K Q.Value = record d { current = v } in
      let (t', saved, open1, same_cache, look) =
        store_writes P D W ns db rid o table t d' e h bare.known in
      let bare' : Bare K Q ns db rid o table t' = record {
        known = Known-cache K Q ns db rid o table t t' same_cache bare.known;
        fds = rw same_cache bare.fds;
        ixs = rw same_cache bare.ixs;
        evs = rw same_cache bare.evs;
      } in
      (
        t',
        rw
            (
              exist-fresh d t fresh,
              altered,
              field-Bare D W ctx o s ns db rid table d' t e bare,
              clean-Bare D W ctx o s ns db rid table d' t e loose bare,
              unguarded,
              index-Bare D W ctx o s ns db rid table d' t e bare,
              saved,
              no_views t',
              event-Bare D W ctx o s ns db rid table d' t' e bare',
            )
            refl,
        open1,
        look,
      )
