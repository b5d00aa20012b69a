-- ===== src/Doc/Index.antt =====
-- lib/src/doc/index.rs: the entries of a record in the indexes of its table.
use surreal_dbservice.Base.{String, Bool, not, ◌||◌, none, some, List, [], ◌∷◌, if◌then◌else◌}
use surreal_dbservice.Err.{Result, ok, err, index_exists}
use surreal_dbservice.Kvs.Engine.{Engine, Key}
use surreal_dbservice.Kvs.Tx.{Transaction, putc, delc}
use surreal_dbservice.Kvs.Definitions.{Codec}
use surreal_dbservice.Keys.{Storekey, encode}
use surreal_dbservice.Keys
use surreal_dbservice.Ctx.{Context}
use surreal_dbservice.Dbs.Options.{Options}
use surreal_dbservice.Sql.Definition.{Parts, catalog, Index}
use surreal_dbservice.Sql.Run.{Run, ◌>>=◌, ◌>>◌, pure, call, the}
use surreal_dbservice.Doc.{Document, Thing, World}
use surreal_dbservice.Doc.Schema.{tb, ix}
use surreal_dbservice.Doc.Save.{when_changed, unless_drop}

module _ {E : Engine} {K : Storekey} {Q : Parts} (D : Codec (catalog Q)) (W : World E K Q) where
  -- the key of an entry: a unique index has one for its values, another one for each record besides
  abbrev pub entry_key : String → String → Index Q → List Q.Value → Thing K → Key
  entry_key ns db i vs rid =
      encode
        (Keys.Index.new K ns db i.what i.name (W.array vs) (if i.uniq then none else some rid.id))

  abbrev pub column_values :
      Context Q.Value → Options → List Q.Idiom → Q.Value → Run E (catalog Q) (List Q.Value)
  column_values ctx o [] v = pure []
  column_values ctx o (c ∷ cs) v = do
    x ← W.compute_idiom c ctx o v
    xs ← column_values ctx o cs v
    pure (x ∷ xs)

  abbrev pub drop_entry : Key → Thing K → Bool → Run E (catalog Q) (Unit {0})
  drop_entry key rid there = if there then call (delc key (some (W.encode_thing rid))) else pure tt

  -- any error of `putc` is reported as a record that is in the index
  abbrev pub or_exists :
      Index Q
      → Thing K
      → Result (Unit {0}) × Transaction E (catalog Q)
      → Result (Unit {0}) × Transaction E (catalog Q)
  or_exists i rid (ok _, t) = (ok tt, t)
  or_exists i rid (err _, t) = (err (index_exists i.name (W.thing_text rid)), t)

  abbrev pub add_entry : Index Q → Key → Thing K → Bool → Run E (catalog Q) (Unit {0})
  add_entry i key rid there =
      if there then call (λ t. or_exists i rid (putc key (W.encode_thing rid) none t)) else pure tt

  unfoldable pub move_entry :
      String
      → String
      → Index Q
      → Thing K
      → Document K Q.Value
      → List Q.Value
      → List Q.Value
      → Run E (catalog Q) (Unit {0})
  unfolding delc putc encode
  move_entry ns db i rid d old new = do
    drop_entry (entry_key ns db i old rid) rid (not (W.is_none d.initial))
    add_entry i (entry_key ns db i new rid) rid (not (W.is_none d.current))

  abbrev pub index_each :
      Context Q.Value
      → Options
      → String
      → String
      → Thing K
      → List (Index Q)
      → Document K Q.Value
      → Run E (catalog Q) (Unit {0})
  index_each ctx o ns db rid [] d = pure tt
  index_each ctx o ns db rid (i ∷ is) d = do
    old ← column_values ctx o i.cols d.initial
    new ← column_values ctx o i.cols d.current
    if o.force || not (W.eq_values old new) then move_entry ns db i rid d old new else pure tt
    index_each ctx o ns db rid is d

  unfoldable pub index :
      Context Q.Value → Options → Document K Q.Value → Run E (catalog Q) (Unit {0})
  unfolding tb ix move_entry
  index ctx o d = when_changed D W o d (
      unless_drop D W o d (
        the d.id >>= λ rid. ix K Q D d o >>= λ is.
        the o.ns >>= λ ns. the o.db >>= λ db. index_each ctx o ns db rid is d))
