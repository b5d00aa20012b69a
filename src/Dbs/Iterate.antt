-- ===== src/Dbs/Iterate.antt =====
-- lib/src/dbs/iterate.rs and lib/src/dbs/channel.rs: the records behind an entry of a statement. The
-- two files are the same code but for what is called with a record (`process`): the iterator, or the
-- sending half of a channel, which can fail.
pub mod Scans
pub mod Named
use surreal_dbservice.Base.{
  ℕ, zero, suc, String, Bool, true, false, Option, none, some, List, [], ◌∷◌, ◌++◌, map,
  if◌then◌else◌,
}
use surreal_dbservice.Err.{Result, ok, err}
use surreal_dbservice.Kvs.Engine.{Engine, Key, Val}
use surreal_dbservice.Kvs.Tx.{Transaction, get}
use surreal_dbservice.Kvs.Batch.{start_of}
use surreal_dbservice.Kvs.Definitions.{Codec, Outcome}
use surreal_dbservice.Kvs.Definitions.One.{check_ns_db_tb}
use surreal_dbservice.Kvs.Order.{Pairs}
use surreal_dbservice.Keys.{Storekey, encode}
use surreal_dbservice.Keys
use surreal_dbservice.Dbs.Options.{Options}
use surreal_dbservice.Dbs.Walk.{
  Walk, after_walk, calling, outcome, with_some, walk_range, walk_ranges,
}
use surreal_dbservice.Sql.Definition.{Parts, catalog}
use surreal_dbservice.Sql.Escape.{escape_ident}
use surreal_dbservice.Doc.{Thing}
use surreal_dbservice.Doc.Process.{Operable, plain, mergeable, relatable}

-- lib/src/sql/dir.rs
pub data Dir : Type 0 where
  in_dir out_dir both_dir : Dir

-- lib/src/sql/edges.rs
pub record Edges (K : Storekey) : Type 0 where
  pub dir : Dir
  pub from : Thing K
  pub what : List String

-- lib/src/dbs/iterator.rs
pub data Iterable (K : Storekey) (V : Type 0) : Type 0 where
  value_entry : V → Iterable K V
  table_entry : String → Iterable K V
  thing_entry : Thing K → Iterable K V
  edges_entry : Edges K → Iterable K V
  mergeable_entry : Thing K → V → Iterable K V
  relatable_entry : Thing K → Thing K → Thing K → Iterable K V

-- What is called with the records: `State` holds the iterator or the channel, and the flags and the
-- clock behind `is_done`. The parsers of keys and values are those of storekey and msgpack; a key that
-- does not parse is a panic.
pub record Caller (E : Engine) (K : Storekey) (Q : Parts) : Type 1 where
  pub State : Type 0
  pub is_done : State → Bool
  pub process :
      Option (Thing K)
      → Operable K Q.Value
      → Transaction E (catalog Q)
      → State
      → Option (Result (Unit {0}) × Transaction E (catalog Q) × State)
  pub none_value : Q.Value
  pub value_of : Val → Q.Value
  pub thing_of : Key → Option (Thing K)
  -- `ft` and `fk` of the key of an edge
  pub edge_of : Key → Option (Thing K)
  pub dir_in : K.Dir
  pub dir_out : K.Dir

module _ {E : Engine} {K : Storekey} {Q : Parts} (D : Codec (catalog Q)) (R : Caller E K Q) where
  abbrev Walks : Type 0 → Type 0
  Walks A = Walk (Transaction E (catalog Q)) R.State A

  abbrev pub stored_value : Option Val → Q.Value
  stored_value none = R.none_value
  stored_value (some v) = R.value_of v

  -- a record of a table
  abbrev pub visit_record : Key → Val → Walks (Unit {0})
  visit_record k v = with_some (R.thing_of k) (λ rid. R.process (some rid) (plain (R.value_of v)))

  abbrev pub fetch : String → String → Thing K → Walks (Option Val)
  fetch ns db rid t s = calling (get (encode (Keys.Thing.new K ns db rid.tb rid.id)) t) s

  -- the record at the other end of an edge
  unfoldable pub visit_edge : String → String → Key → Val → Walks (Unit {0})
  unfolding encode
  visit_edge ns db k v = with_some (R.edge_of k) (λ rid t s.
      after_walk (fetch ns db rid t s) (λ val. R.process (some rid) (plain (stored_value val))))

  abbrev pub ft_range : String → String → Thing K → K.Dir → String → Key × Key
  ft_range ns db rid eg ft = (
    Keys.Graph.ftprefix K ns db rid.tb rid.id eg ft,
    Keys.Graph.ftsuffix K ns db rid.tb rid.id eg ft,
  )

  abbrev pub eg_range : String → String → Thing K → K.Dir → Key × Key
  eg_range ns db rid eg =
      (Keys.Graph.egprefix K ns db rid.tb rid.id eg, Keys.Graph.egsuffix K ns db rid.tb rid.id eg)

  abbrev pub every_edge : String → String → Thing K → Dir → List (Key × Key)
  every_edge ns db rid both_dir =
      (Keys.Graph.prefix K ns db rid.tb rid.id, Keys.Graph.suffix K ns db rid.tb rid.id) ∷ []
  every_edge ns db rid in_dir = eg_range ns db rid R.dir_in ∷ []
  every_edge ns db rid out_dir = eg_range ns db rid R.dir_out ∷ []

  abbrev pub both_ranges : String → String → Thing K → List String → List (Key × Key)
  both_ranges ns db rid [] = []
  both_ranges ns db rid (v ∷ vs) =
      ft_range ns db rid R.dir_in v ∷ ft_range ns db rid R.dir_out v ∷ both_ranges ns db rid vs

  abbrev pub edges_in : String → String → Thing K → Dir → List String → List (Key × Key)
  edges_in ns db rid in_dir vs = map (ft_range ns db rid R.dir_in) vs
  edges_in ns db rid out_dir vs = map (ft_range ns db rid R.dir_out) vs
  edges_in ns db rid both_dir vs = both_ranges ns db rid vs

  -- The ranges of the edges of a record, by direction and by the tables at their other ends: a table is
  -- taken as it is displayed (`v.to_string()`, which is `escape_ident` in lib/src/sql/table.rs).
  unfoldable pub edge_ranges : String → String → Edges K → List (Key × Key)
  unfolding escape_ident Keys.Graph.prefix Keys.Graph.suffix Keys.Graph.egprefix Keys.Graph.egsuffix
      Keys.Graph.ftprefix Keys.Graph.ftsuffix
  edge_ranges ns db e = ranges_of e.what
    where
      ranges_of : List String → List (Key × Key)
      ranges_of [] = every_edge ns db e.from e.dir
      ranges_of (v ∷ vs) = edges_in ns db e.from e.dir (map escape_ident (v ∷ vs))

  -- the record of an entry that names it: `what` makes the operable of its value
  abbrev pub one_record : Options → Thing K → (Q.Value → Operable K Q.Value) → Walks (Unit {0})
  one_record o rid what t s =
      with_some o.ns
        (λ ns. with_some o.db (λ db t s.
          after_walk (outcome (check_ns_db_tb K D ns db rid.tb o.strict t) s) (λ _ t s.
            after_walk (fetch ns db rid t s)
              (λ val. R.process (some rid) (what (stored_value val))))))
        t s

  abbrev pub entry : ℕ → Options → Iterable K Q.Value → Walks (Unit {0})
  entry fuel o (value_entry v) = R.process none (plain v)
  entry fuel o (thing_entry v) = one_record o v plain
  entry fuel o (mergeable_entry v x) = one_record o v (λ y. mergeable y x)
  entry fuel o (relatable_entry f v w) = one_record o v (λ y. relatable f y w)
  entry fuel o (table_entry v) = with_some o.ns (λ ns. with_some o.db (λ db t s.
      after_walk (outcome (check_ns_db_tb K D ns db v o.strict t) s) (λ _.
        walk_range R.is_done visit_record fuel (Keys.Thing.prefix K ns db v)
          (Keys.Thing.suffix K ns db v) none)))
  entry fuel o (edges_entry e) = with_some o.ns (λ ns.
      with_some o.db (λ db. walk_ranges R.is_done (visit_edge ns db) fuel (edge_ranges ns db e)))

  -- `Iterable::iterate` and `Iterable::channel`
  unfoldable pub iterate : ℕ → Options → Iterable K Q.Value → Walks (Unit {0})
  unfolding check_ns_db_tb encode walk_range walk_ranges edge_ranges Keys.Thing.prefix
      Keys.Thing.suffix visit_edge
  iterate fuel o v t s = if R.is_done s then some (ok tt, t, s) else entry fuel o v t s
