-- ===== src/Doc/Save.antt =====
-- lib/src/doc: store.rs, edges.rs and purge.rs, which write and delete records and their edges.
use surreal_dbservice.Base.{String, not, ◌&&◌, Option, none, some, [], if◌then◌else◌}
use surreal_dbservice.Kvs.Engine.{Engine, Key}
use surreal_dbservice.Kvs.Tx.{set, del}
use surreal_dbservice.Kvs.Definitions.{Codec}
use surreal_dbservice.Keys.{Storekey, encode}
use surreal_dbservice.Keys
use surreal_dbservice.Ctx.{Context}
use surreal_dbservice.Dbs.Options.{Options}
use surreal_dbservice.Sql.Definition.{Parts, catalog}
use surreal_dbservice.Sql.Run.{Run, ◌>>=◌, ◌>>◌, pure, call, the}
use surreal_dbservice.Doc.{
  Document, Thing, World, Workable, normal_work, insert_work, relate_work, changed,
}
use surreal_dbservice.Doc.Schema.{tb}

module _ {E : Engine} {K : Storekey} {Q : Parts} (D : Codec (catalog Q)) (W : World E K Q) where
  -- `if !opt.force && !self.changed() { return Ok(()) }`
  abbrev pub when_changed :
      Options → Document K Q.Value → Run E (catalog Q) (Unit {0}) → Run E (catalog Q) (Unit {0})
  when_changed o d rest = if not o.force && not (changed W d) then pure tt else rest

  -- `if self.tb(opt, txn).await?.drop { return Ok(()) }`
  abbrev pub unless_drop :
      Options → Document K Q.Value → Run E (catalog Q) (Unit {0}) → Run E (catalog Q) (Unit {0})
  unless_drop o d rest = do t ← tb K Q D d o; if t.drop then pure tt else rest

  unfoldable pub store : Options → Document K Q.Value → Run E (catalog Q) (Unit {0})
  unfolding tb set encode
  store o d = when_changed o d (
      unless_drop o d (
        the d.id >>= λ rid. the o.ns >>= λ ns. the o.db >>= λ db.
        call (set (encode (Keys.Thing.new K ns db rid.tb rid.id)) (W.encode_value d.current))))

  -- the four keys of an edge `rid` from `l` to `r`
  abbrev pub left_pointer : String → String → Thing K → Thing K → Thing K → Key
  left_pointer ns db rid l r = encode (Keys.Graph.new K ns db l.tb l.id W.dir_out rid.tb rid.id)

  abbrev pub left_inner : String → String → Thing K → Thing K → Thing K → Key
  left_inner ns db rid l r = encode (Keys.Graph.new K ns db rid.tb rid.id W.dir_in l.tb l.id)

  abbrev pub right_inner : String → String → Thing K → Thing K → Thing K → Key
  right_inner ns db rid l r = encode (Keys.Graph.new K ns db rid.tb rid.id W.dir_out r.tb r.id)

  abbrev pub right_pointer : String → String → Thing K → Thing K → Thing K → Key
  right_pointer ns db rid l r = encode (Keys.Graph.new K ns db r.tb r.id W.dir_in rid.tb rid.id)

  unfoldable pub write_edge :
      String → String → Thing K → Thing K → Thing K → Run E (catalog Q) (Unit {0})
  unfolding set encode
  write_edge ns db rid l r = do
    call (set (left_pointer ns db rid l r) [])
    call (set (left_inner ns db rid l r) [])
    call (set (right_inner ns db rid l r) [])
    call (set (right_pointer ns db rid l r) [])

  unfoldable pub erase_edge :
      String → String → Thing K → Thing K → Thing K → Run E (catalog Q) (Unit {0})
  unfolding del encode
  erase_edge ns db rid l r = do
    call (del (left_pointer ns db rid l r))
    call (del (left_inner ns db rid l r))
    call (del (right_inner ns db rid l r))
    call (del (right_pointer ns db rid l r))

  abbrev pub edges_of :
      Context Q.Value
      → Options
      → String
      → String
      → Thing K
      → Workable K Q.Value
      → Document K Q.Value
      → Run E (catalog Q) (Document K Q.Value)
  edges_of ctx o ns db rid (relate_work l r) d = do
    write_edge ns db rid l r
    v ← W.set ctx o W.in_idiom (W.of_thing l) d.current
    v' ← W.set ctx o W.out_idiom (W.of_thing r) v
    pure (record d { current = v' })
  edges_of ctx o ns db rid normal_work d = pure d
  edges_of ctx o ns db rid (insert_work e) d = pure d

  unfoldable pub edges :
      Context Q.Value → Options → Document K Q.Value → Run E (catalog Q) (Document K Q.Value)
  unfolding tb write_edge
  edges ctx o d = do
    t ← tb K Q D d o
    let whole : Run E (catalog Q) (Document K Q.Value) =
        (the d.id >>= λ rid.
        the o.ns >>= λ ns. the o.db >>= λ db. edges_of ctx o ns db rid d.extras d)
    if t.drop then pure d else whole

  abbrev pub purge_edges :
      Context Q.Value
      → Options
      → String
      → String
      → Thing K
      → Option (Thing K)
      → Option (Thing K)
      → Run E (catalog Q) (Unit {0})
  purge_edges ctx o ns db rid (some l) (some r) = erase_edge ns db rid l r
  purge_edges ctx o ns db rid none _ = W.delete_edges rid ctx o
  purge_edges ctx o ns db rid (some l) none = W.delete_edges rid ctx o

  unfoldable pub purge :
      Context Q.Value → Options → Document K Q.Value → Run E (catalog Q) (Unit {0})
  unfolding tb del encode erase_edge
  purge ctx o d = when_changed o d (
      unless_drop o d (
        the d.id >>= λ rid. the o.ns >>= λ ns. the o.db >>= λ db.
        call (del (encode (Keys.Thing.new K ns db rid.tb rid.id)))
        >> purge_edges ctx o ns db rid (W.as_thing (W.pick W.in_idiom d.initial))
            (W.as_thing (W.pick W.out_idiom d.initial))))
