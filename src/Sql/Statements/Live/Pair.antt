-- ===== src/Sql/Statements/Live/Pair.antt =====
-- LIVE and KILL of lib/src/sql/statements on an open transaction.
use surreal_dbservice.Base.{
  ◌≡◌, refl, sym, ap, ◌∙◌, false, Bool-cases, inl, inr, Option, none, some, [], ◌∷◌, ◌++◌, arith,
  String, if◌then◌else◌,
}
use surreal_dbservice.Err.{ok}
use surreal_dbservice.Kvs.Engine.{Engine, Key}
use surreal_dbservice.Kvs.Cache.{key_eq, key_eq_refl, key_eq_sound}
use surreal_dbservice.Kvs.Find.{key_eq_sym}
use surreal_dbservice.Kvs.Gone.{del-Gone}
use surreal_dbservice.Kvs.Laws.{ScanLaws, PointLaws, find}
use surreal_dbservice.Kvs.Tx.{Transaction, set}
use surreal_dbservice.Kvs.Tx.Point.{set-open, get-open, putc-absent, set-eq_ok}
use surreal_dbservice.Kvs.Batch.Exact.{IsOpen, contents}
use surreal_dbservice.Keys.{Storekey, Field, byte, str, encode}
use surreal_dbservice.Keys
use surreal_dbservice.Keys.Ranges.{StartLaws, joined, encode-eq}
use surreal_dbservice.Dbs.Auth.{no_level, db_level}
use surreal_dbservice.Dbs.Options
use surreal_dbservice.Dbs.Options.{Options, needs, realtime}
use surreal_dbservice.Sql.Definition.{Parts, catalog, Encoder}
use surreal_dbservice.Sql.Run.{Run}
use surreal_dbservice.Sql.Statements.Live.{Source, table, Texts, live, kill}

key_eq-front : (p j k : Key) → key_eq (p ++ j) (p ++ k) ≡ key_eq j k
unfolding key_eq
key_eq-front [] j k = refl
key_eq-front (a ∷ p) j k = ground (arith, key_eq-front p j k)

module _ {K : Storekey} (S : StartLaws K) where
  -- The two keys of a live query differ.
  lq_differs :
      (ns db tb : String) (id : K.Uuid)
      → key_eq (encode (Keys.Lq.new K ns db id)) (encode (Keys.Lv.new K ns db tb id)) ≡ false
  unfolding joined key_eq
  lq_differs ns db tb id =
      rw (encode-eq S (Keys.Lq.new K ns db id), encode-eq S (Keys.Lv.new K ns db tb id))
        (rw (key_eq-front (K.encode_str ns) _ _, key_eq-front (K.encode_str db) _ _) refl)

-- what the two deletions leave of two writes
undone :
    {A : Type 0} (a b j : Key) (x y : A) (found : Key → Option A)
    → found a ≡ none
    → found b ≡ none
    → (if key_eq b j
        then none
        else if key_eq a j
        then none
        else if key_eq b j
        then some y
        else if key_eq a j
        then some x
        else found j)
      ≡ found j
undone a b j x y found fa fb = elim (Bool-cases (key_eq b j)) [
  | inl here ↦ rw here (sym fb ∙ ap found (key_eq_sound b j here))
  | inr away ↦ elim (Bool-cases (key_eq a j)) [
    | inl here ↦ rw (away, here) (sym fa ∙ ap found (key_eq_sound a j here))
    | inr far ↦ rw (away, far) refl
  ]
]

module _ {E : Engine} {K : Storekey} {Q : Parts} {L : ScanLaws E} (P : PointLaws E L)
    (S : StartLaws K) (W : Encoder Q) (T : Texts K Q) where
  -- A live query that was registered and then killed leaves every key as it was: LIVE and KILL
  -- succeed on an open transaction, where the query reads from a table, the text of the table is read
  -- back from its bytes, and neither key of the query is there.
  pub kill_undoes_live :
      (compute_what : Q.Live → Options → Run E (catalog Q) Source) (s : Q.Live) (o : Options)
      (ns db tb : String) (t : Transaction E (catalog Q))
      → o.ns ≡ some ns
      → o.db ≡ some db
      → realtime o ≡ ok tt
      → needs o db_level ≡ ok tt
      → Options.check o no_level ≡ ok tt
      → compute_what s o t ≡ some (ok (table tb), t)
      → T.from_utf8 (T.bytes tb) ≡ some tb
      → IsOpen L t
      → find (encode (Keys.Lq.new K ns db (T.id s))) (contents L t) ≡ none
      → find (encode (Keys.Lv.new K ns db tb (T.id s))) (contents L t) ≡ none
      → (t1 t2 : Transaction E (catalog Q)) × (live K Q W T compute_what s o t
          ≡ some (ok (T.id s), t1))
        × (kill K Q W T compute_what (T.id s) o t1 ≡ some (ok tt, t2))
        × IsOpen L t2
        × ((j : Key) → find j (contents L t2) ≡ find j (contents L t))
  unfolding live kill
  kill_undoes_live compute_what s o ns db tb t en ed er ee ec ew eu h fq fv =
      let lq = encode (Keys.Lq.new K ns db (T.id s)) in
      let lv = encode (Keys.Lv.new K ns db tb (T.id s)) in
      let apart : key_eq lq lv ≡ false = lq_differs S ns db tb (T.id s) in
      let b = T.bytes tb in
      let w = W.encode_live s in
      let (_, open1, look1) = set-open P lq b t h in
      let ta = (set lq b t).1 in
      let absent : find lv (contents L ta) ≡ none = look1 lv ∙ rw apart fv in
      let (_, open2, look2) = set-open P lv w ta open1 in
      let t1 = (set lv w ta).1 in
      let there : find lq (contents L t1) ≡ some b =
        look2 lq ∙ rw (key_eq_sym lq lv apart) (look1 lq ∙ rw (key_eq_refl lq) refl) in
      let (tb', del1, gone1) = del-Gone L lq t1 open2 in
      let (t2, del2, gone2) = del-Gone L lv tb' gone1.open_ in
      (
        t1,
        t2,
        rw
            (
              er,
              ee,
              ec,
              ew,
              en,
              ed,
              putc-absent P lq b t h fq,
              set-eq_ok P lq b t h,
              putc-absent P lv w ta open1 absent,
              set-eq_ok P lv w ta open1,
            )
            refl,
        rw (er, ee, ec, en, ed, get-open P lq t1 open2, there, eu, del1, del2) refl,
        gone2.open_,
        λ j.
            gone2.found j
            ∙ ap (λ x. if key_eq lv j then none else x)
                (gone1.found j
                  ∙ ap (λ x. if key_eq lq j then none else x)
                      (look2 j ∙ ap (λ x. if key_eq lv j then some w else x) (look1 j)))
            ∙ undone lq lv j b w (λ i. find i (contents L t)) fq fv,
      )
