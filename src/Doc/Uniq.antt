-- ===== src/Doc/Uniq.antt =====
-- lib/src/doc/index.rs on an open transaction.
use surreal_dbservice.Base.{
  ◌≡◌, refl, sym, ap, ◌∙◌, Bool, true, false, not, ◌&&◌, Bool-cases, inl, inr, Option, none, some,
  List, String, if◌then◌else◌,
}
use surreal_dbservice.Err.{Result, ok, err, index_exists}
use surreal_dbservice.Kvs.Engine.{Engine, Key, Val}
use surreal_dbservice.Kvs.Cache.{key_eq, key_eq_sound}
use surreal_dbservice.Kvs.Gone.{del-Gone}
use surreal_dbservice.Kvs.Laws.{ScanLaws, PointLaws, find}
use surreal_dbservice.Kvs.Tx.{Transaction, set}
use surreal_dbservice.Kvs.Tx.Point.{set-open, set-eq_ok, putc-absent, putc-held, delc-held}
use surreal_dbservice.Kvs.Batch.Exact.{IsOpen, contents}
use surreal_dbservice.Kvs.Definitions.{Codec}
use surreal_dbservice.Keys.{Storekey}
use surreal_dbservice.Sql.Definition.{Parts, catalog, Index}
use surreal_dbservice.Doc.{Document, Thing, World}
use surreal_dbservice.Doc.Index.{move_entry, drop_entry, add_entry, entry_key}

-- the first value that is there
abbrev pub first_of : Option Val → Val → Val
first_of none v = v
first_of (some w) v = w

module _ {E : Engine} {K : Storekey} {Q : Parts} {L : ScanLaws E} (P : PointLaws E L)
    (D : Codec (catalog Q)) (W : World E K Q) where
  drop_entry-eq :
      (key : Key) (rid : Thing K) (was : Bool) (t : Transaction E (catalog Q))
      → IsOpen L t
      → (was ≡ true → find key (contents L t) ≡ some (W.encode_thing rid))
      → (t' : Transaction E (catalog Q)) × (drop_entry D W key rid was t ≡ some (ok tt, t'))
        × IsOpen L t'
        × ((j : Key)
            → find j (contents L t')
              ≡ (if was && key_eq key j then none else find j (contents L t)))
  drop_entry-eq key rid false t h held = (t, refl, h, λ j. refl)
  drop_entry-eq key rid true t h held =
      let (t', del, gone) = del-Gone L key t h in
      (
        t',
        rw (delc-held P key (W.encode_thing rid) t h (held refl), del) refl,
        gone.open_,
        gone.found,
      )

  -- what a claim to an entry answers, by what the entry holds
  abbrev pub claimed : Index Q → Thing K → Option Val → Result (Unit {0})
  claimed i rid none = ok tt
  claimed i rid (some w) = err (index_exists i.name (W.thing_text rid))

  add_entry-eq :
      (i : Index Q) (key : Key) (rid : Thing K) (now : Bool) (t : Transaction E (catalog Q))
      (held : Option Val)
      → IsOpen L t
      → find key (contents L t) ≡ held
      → (t' : Transaction E (catalog Q)) × (add_entry D W i key rid now t
          ≡ some (if now then claimed i rid held else ok tt, t'))
        × IsOpen L t'
        × ((j : Key)
            → find j (contents L t') ≡ (
                if now && key_eq key j
                then some (first_of held (W.encode_thing rid))
                else find j (contents L t)))
  add_entry-eq i key rid false t held h e = (t, refl, h, λ j. refl)
  add_entry-eq i key rid true t none h e =
      let v = W.encode_thing rid in
      let (_, open1, look) = set-open P key v t h in
      ((set key v t).1, rw (putc-absent P key v t h e, set-eq_ok P key v t h) refl, open1, look)
  add_entry-eq i key rid true t (some w) h e =
      let (x, refused) = putc-held P key (W.encode_thing rid) w t h e in
      (t, rw refused refl, h, λ j. same_value j)
    where
      same_value :
          (j : Key)
          → find j (contents L t) ≡ (if key_eq key j then some w else find j (contents L t))
      same_value j = elim (Bool-cases (key_eq key j)) [
        | inl here ↦ rw here (sym (ap (λ k. find k (contents L t)) (key_eq_sound key j here)) ∙ e)
        | inr away ↦ rw away refl
      ]

  -- The entry of a record moves in an index: on an open transaction, where the entry of the old values
  -- holds the record if it had any, that entry is removed, and the entry of the new values is taken
  -- for the record if there is one and nobody holds it. If another record holds it, the answer is
  -- `IndexExists` and the holder keeps it, but the old entry is removed all the same. No other key
  -- changes.
  pub index_moves :
      (ns db : String) (i : Index Q) (rid : Thing K) (d : Document K Q.Value)
      (old new : List Q.Value) (t : Transaction E (catalog Q)) (was now : Bool) (held : Option Val)
      → was ≡ not (W.is_none d.initial)
      → now ≡ not (W.is_none d.current)
      → held ≡ (
          if was && key_eq (entry_key D W ns db i old rid) (entry_key D W ns db i new rid)
          then none
          else find (entry_key D W ns db i new rid) (contents L t))
      → IsOpen L t
      → (was ≡ true
          → find (entry_key D W ns db i old rid) (contents L t) ≡ some (W.encode_thing rid))
      → (t' : Transaction E (catalog Q)) × (move_entry D W ns db i rid d old new t
          ≡ some (if now then claimed i rid held else ok tt, t'))
        × IsOpen L t'
        × ((j : Key)
            → find j (contents L t') ≡ (
                if now && key_eq (entry_key D W ns db i new rid) j
                then some (first_of held (W.encode_thing rid))
                else if was && key_eq (entry_key D W ns db i old rid) j
                then none
                else find j (contents L t)))
  unfolding move_entry
  index_moves ns db i rid d old new t was now held ew en eh h holds =
      let a = entry_key D W ns db i old rid in
      let b = entry_key D W ns db i new rid in
      let (t1, dropped, open1, look1) = drop_entry-eq a rid was t h holds in
      let (t2, added, open2, look2) = add_entry-eq i b rid now t1 held open1 (look1 b ∙ sym eh) in
      (
        t2,
        rw (← ew, ← en, dropped, added) refl,
        open2,
        λ j.
            look2 j
            ∙ ap (λ x. if now && key_eq b j then some (first_of held (W.encode_thing rid)) else x)
                (look1 j),
      )
