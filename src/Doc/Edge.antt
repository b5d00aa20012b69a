-- ===== src/Doc/Edge.antt =====
-- The keys of a record and of its edges in lib/src/doc: edges.rs and purge.rs.
use surreal_dbservice.Base.{
  ◌≡◌, refl, sym, ap, ◌∙◌, Bool, true, false, not, ◌&&◌, ◌||◌, Bool-cases, inl, inr, none, some,
  List, [], ◌∷◌, arith, String, if◌then◌else◌,
}
use surreal_dbservice.Err.{ok}
use surreal_dbservice.Kvs.Engine.{Engine, Key, Val}
use surreal_dbservice.Kvs.Cache.{key_eq, key_eq_sound, key_eq_refl}
use surreal_dbservice.Kvs.Gone.{Gone, del-Gone, Gone-both}
use surreal_dbservice.Kvs.Laws.{ScanLaws, PointLaws, find}
use surreal_dbservice.Kvs.Order.{Pairs}
use surreal_dbservice.Kvs.Tx.{Transaction, set}
use surreal_dbservice.Kvs.Tx.Point.{set-open, set-eq_ok}
use surreal_dbservice.Kvs.Batch.Exact.{IsOpen, contents}
use surreal_dbservice.Kvs.Definitions.{Codec}
use surreal_dbservice.Keys.{Storekey}
use surreal_dbservice.Ctx.{Context}
use surreal_dbservice.Dbs.Options.{Options}
use surreal_dbservice.Sql.Definition.{Parts, catalog, Table}
use surreal_dbservice.Sql.Run.{◌>>=◌}
use surreal_dbservice.Doc.{Document, Thing, World, relate_work, changed}
use surreal_dbservice.Doc.Known.{the-eq, Known, tb-Known, set-Known, Known-cache}
use surreal_dbservice.Doc.Stored.{record_key, skips, store_writes}
use surreal_dbservice.Doc.Save.{
  store, edges, edges_of, write_edge, erase_edge, purge, left_pointer, left_inner, right_inner,
  right_pointer,
}

-- one of the keys
abbrev pub among : List Key → Key → Bool
among [] j = false
among (k ∷ ks) j = key_eq k j || among ks j

-- none of the keys is there
abbrev pub AllAbsent : List Key → Pairs → Type 0
AllAbsent [] xs = Unit
AllAbsent (k ∷ ks) xs = (find k xs ≡ none) × AllAbsent ks xs

among-absent :
    (ks : List Key) (j : Key) (xs : Pairs) → AllAbsent ks xs → among ks j ≡ true → find j xs ≡ none
among-absent [] j xs h e = cc
among-absent (k ∷ ks) j xs h e = elim (Bool-cases (key_eq k j)) [
  | inl same ↦ sym (ap (λ i. find i xs) (key_eq_sound k j same)) ∙ h.0
  | inr apart ↦ among-absent ks j xs h.1 (rw apart at e)
]

module _ {E : Engine} {K : Storekey} {Q : Parts} (D : Codec (catalog Q)) (W : World E K Q) where
  -- the keys of an edge from `l` to `r`
  abbrev pub edge_keys : String → String → Thing K → Thing K → Thing K → List Key
  edge_keys ns db rid l r =
      left_pointer D W ns db rid l r
      ∷ left_inner D W ns db rid l r
      ∷ right_inner D W ns db rid l r
      ∷ right_pointer D W ns db rid l r
      ∷ []

module _ {E : Engine} {K : Storekey} {Q : Parts} {L : ScanLaws E} (P : PointLaws E L)
    (D : Codec (catalog Q)) (W : World E K Q) where
  -- From one transaction to another `v` is written under each key, and nothing else has changed.
  pub record Wrote (t : Transaction E (catalog Q)) (ks : List Key) (v : Val)
      (t' : Transaction E (catalog Q)) : Type 0 where
    pub open_ : IsOpen L t'
    pub found :
        (j : Key) → find j (contents L t') ≡ (if among ks j then some v else find j (contents L t))

  write_edge-Wrote :
      (ns db : String) (rid l r : Thing K) (o : Options) (table : Table Q)
      (t : Transaction E (catalog Q))
      → IsOpen L t
      → Known K Q ns db rid o table t
      → (t' : Transaction E (catalog Q)) × (write_edge D W ns db rid l r t ≡ some (ok tt, t'))
        × Wrote t (edge_keys D W ns db rid l r) [] t'
        × Known K Q ns db rid o table t'
  unfolding write_edge
  write_edge-Wrote ns db rid l r o table t h known =
      let k1 = left_pointer D W ns db rid l r in
      let k2 = left_inner D W ns db rid l r in
      let k3 = right_inner D W ns db rid l r in
      let k4 = right_pointer D W ns db rid l r in
      let (_, open1, look1) = set-open P k1 [] t h in
      let t1 = (set k1 [] t).1 in
      let (_, open2, look2) = set-open P k2 [] t1 open1 in
      let t2 = (set k2 [] t1).1 in
      let (_, open3, look3) = set-open P k3 [] t2 open2 in
      let t3 = (set k3 [] t2).1 in
      let (_, open4, look4) = set-open P k4 [] t3 open3 in
      (
        (set k4 [] t3).1,
        rw
            (
              set-eq_ok P k1 [] t h,
              set-eq_ok P k2 [] t1 open1,
              set-eq_ok P k3 [] t2 open2,
              set-eq_ok P k4 [] t3 open3,
            )
            refl,
        record { open_ = open4; found = λ j. ground (arith, look1 j, look2 j, look3 j, look4 j) },
        set-Known K Q ns db rid o table t3 k4 [] (
            set-Known K Q ns db rid o table t2 k3 [] (
              set-Known K Q ns db rid o table t1 k2 []
                (set-Known K Q ns db rid o table t k1 [] known))),
      )

  erase_edge-Gone :
      (ns db : String) (rid l r : Thing K) (t : Transaction E (catalog Q))
      → IsOpen L t
      → (t' : Transaction E (catalog Q)) × (erase_edge D W ns db rid l r t ≡ some (ok tt, t'))
        × Gone L t (among (edge_keys D W ns db rid l r)) t'
  unfolding erase_edge
  erase_edge-Gone ns db rid l r t h =
      let k1 = left_pointer D W ns db rid l r in
      let k2 = left_inner D W ns db rid l r in
      let k3 = right_inner D W ns db rid l r in
      let k4 = right_pointer D W ns db rid l r in
      let (t1, del1, gone1) = del-Gone L k1 t h in
      let (t2, del2, gone2) = del-Gone L k2 t1 gone1.open_ in
      let (t3, del3, gone3) = del-Gone L k3 t2 gone2.open_ in
      let (t4, del4, gone4) = del-Gone L k4 t3 gone3.open_ in
      (
        t4,
        rw (del1, del2, del3, del4) refl,
        record {
          open_ = gone4.open_;
          shorter = omega (arith, gone1.shorter, gone2.shorter, gone3.shorter, gone4.shorter);
          found = λ j. ground (arith, gone1.found j, gone2.found j, gone3.found j, gone4.found j);
        },
      )

  -- what a deletion of an edge takes away
  purge-Gone :
      (ctx : Context Q.Value) (ns db : String) (rid l r : Thing K) (o : Options) (table : Table Q)
      (t : Transaction E (catalog Q)) (d : Document K Q.Value)
      → d.id ≡ some rid
      → W.as_thing (W.pick W.in_idiom d.initial) ≡ some l
      → W.as_thing (W.pick W.out_idiom d.initial) ≡ some r
      → skips D W o d table ≡ false
      → IsOpen L t
      → Known K Q ns db rid o table t
      → (t' : Transaction E (catalog Q)) × (purge D W ctx o d t ≡ some (ok tt, t'))
        × Gone L t (among (record_key D W ns db rid ∷ edge_keys D W ns db rid l r)) t'
  unfolding purge
  purge-Gone ctx ns db rid l r o table t d e el er keep h known =
      let (t1, del1, gone1) = del-Gone L (record_key D W ns db rid) t h in
      let (t2, del2, gone2) = erase_edge-Gone ns db rid l r t1 gone1.open_ in
      let moved : not o.force && not (changed W d) ≡ false = ground arith in
      let kept : table.drop ≡ false = ground arith in
      (
        t2,
        rw
            (
              moved,
              tb-Known K Q D ns db rid o table t d e known,
              kept,
              e,
              known.ns_known,
              known.db_known,
              del1,
              el,
              er,
              del2,
            )
            refl,
        Gone-both L (key_eq (record_key D W ns db rid)) (among (edge_keys D W ns db rid l r)) gone1
            gone2,
      )

  edges-eq :
      (ctx : Context Q.Value) (ns db : String) (rid l r : Thing K) (o : Options) (table : Table Q)
      (t ta : Transaction E (catalog Q)) (d : Document K Q.Value) (v v' : Q.Value)
      → d.id ≡ some rid
      → d.extras ≡ relate_work l r
      → table.drop ≡ false
      → Known K Q ns db rid o table t
      → write_edge D W ns db rid l r t ≡ some (ok tt, ta)
      → W.set ctx o W.in_idiom (W.of_thing l) d.current ta ≡ some (ok v, ta)
      → W.set ctx o W.out_idiom (W.of_thing r) v ta ≡ some (ok v', ta)
      → edges D W ctx o d t ≡ some (ok (record d { current = v' }), ta)
  unfolding edges
  edges-eq ctx ns db rid l r o table t ta d v v' e ex kept known wrote in_set out_set =
      let whole : edges_of D W ctx o ns db rid d.extras d t
          ≡ some (ok (record d { current = v' }), ta) =
        rw (ex, wrote, in_set, out_set) refl in
      rw (tb-Known K Q D ns db rid o table t d e known, kept)
        (the-eq d.id rid _ t e
          ∙ the-eq o.ns ns _ t known.ns_known
          ∙ the-eq o.db db _ t known.db_known
          ∙ whole)

  -- RELATE's edge and a later deletion of it: the record of the edge and its four keys are written on
  -- an open transaction where none of the five is there, and the deletion of the edge takes exactly
  -- them away, so that every key reads as before. The table of the edge is in the cache and keeps
  -- records, the two versions of the record are changed or saved by force, the fields `in` and `out`
  -- are set without a change of the store, and are read back from the record as the two ends.
  pub purge_undoes_relate :
      (ctx : Context Q.Value) (ns db : String) (rid l r : Thing K) (o : Options) (table : Table Q)
      (t : Transaction E (catalog Q)) (d : Document K Q.Value) (d' : Document K Q.Value)
      (v v' : Q.Value)
      → d.id ≡ some rid
      → d.extras ≡ relate_work l r
      → d'.id ≡ some rid
      → ((u : Transaction E (catalog Q))
          → W.set ctx o W.in_idiom (W.of_thing l) d.current u ≡ some (ok v, u))
      → ((u : Transaction E (catalog Q))
          → W.set ctx o W.out_idiom (W.of_thing r) v u ≡ some (ok v', u))
      → W.as_thing (W.pick W.in_idiom d'.initial) ≡ some l
      → W.as_thing (W.pick W.out_idiom d'.initial) ≡ some r
      → skips D W o (record d { current = v' }) table ≡ false
      → skips D W o d' table ≡ false
      → IsOpen L t
      → Known K Q ns db rid o table t
      → AllAbsent (record_key D W ns db rid ∷ edge_keys D W ns db rid l r) (contents L t)
      → (t1 t2 : Transaction E (catalog Q)) × ((edges D W ctx o d >>= store D W o) t
          ≡ some (ok tt, t1))
        × (find (record_key D W ns db rid) (contents L t1) ≡ some (W.encode_value v'))
        × (purge D W ctx o d' t1 ≡ some (ok tt, t2))
        × IsOpen L t2
        × ((j : Key) → find j (contents L t2) ≡ find j (contents L t))
  purge_undoes_relate ctx ns db rid l r o table t d d' v v' e ex e' in_set out_set el er keep keep'
        h known absent =
      let key = record_key D W ns db rid in
      let four = edge_keys D W ns db rid l r in
      let kept : table.drop ≡ false = ground arith in
      let (ta, wrote, look1, known1) = write_edge-Wrote ns db rid l r o table t h known in
      let (t1, saved, open1, same_cache, look2) =
        store_writes P D W ns db rid o table ta (record d { current = v' }) e look1.open_ known1 in
      let (t2, purged, gone) =
        purge-Gone ctx ns db rid l r o table t1 d' e' el er keep' open1
          (Known-cache K Q ns db rid o table ta t1 same_cache known1) in
      (
        t1,
        t2,
        rw
            (
              edges-eq ctx ns db rid l r o table t ta d v v' e ex kept known wrote (in_set ta)
                  (out_set ta),
              saved,
            )
            refl,
        look2 key ∙ rw (keep, key_eq_refl key) refl,
        purged,
        gone.open_,
        λ j. elim (Bool-cases (among (key ∷ four) j)) [
          | inl there ↦
              gone.found j
              ∙ rw there (sym (among-absent (key ∷ four) j (contents L t) absent there))
          | inr away ↦ gone.found j ∙ rw away (look2 j ∙ ground (arith, look1.found j))
        ],
      )
