-- ===== src/Sql/Value.antt =====
-- lib/src/sql/value: the paths into a value. pick.rs reads a path, each.rs and walk.rs find the places
-- that a path stands for, and every.rs lists the paths of all leaves.
pub mod Paths
pub mod Leaves
pub mod Set
pub mod Del
use surreal_dbservice.Base.{
  ℕ, zero, suc, String, Bool, Option, none, some, List, [], ◌∷◌, ◌++◌, str_eq, if◌then◌else◌,
}

-- What a value holds besides arrays and objects, and what a path holds besides fields and indexes.
pub record Atoms : Type 1 where
  pub Leaf : Type 0
  pub Cond : Type 0
  pub Thing : Type 0
  pub Graph : Type 0

module _ (A : Atoms) where
  -- lib/src/sql/value/value.rs: the constructors that hold no other values are in `leaf_value`, but for
  -- the two that the paths know. The entries of an object are in the order of its `BTreeMap`.
  mutual
    pub data Value : Type 0 where
      none_value null_value : Value
      leaf_value : A.Leaf → Value
      object_value : Entries → Value
      array_value : Items → Value

    pub data Items : Type 0 where
      end_items : Items
      item : Value → Items → Items

    pub data Entries : Type 0 where
      end_entries : Entries
      entry : String → Value → Entries → Entries

  -- lib/src/sql/part.rs; an index is what `Number::to_usize` makes of its number
  pub data Part : Type 0 where
    any_part all_part last_part first_part : Part
    field_part : String → Part
    index_part : ℕ → Part
    where_part : A.Cond → Part
    thing_part : A.Thing → Part
    graph_part : A.Graph → Part

  abbrev pub Idiom : Type 0
  Idiom = List Part

module _ {A : Atoms} where
  -- `Idiom::push`
  abbrev pub push : Part A → Idiom A → Idiom A
  push p prev = prev ++ p ∷ []

  -- `BTreeMap::get`
  unfoldable pub lookup : String → Entries A → Option (Value A)
  lookup f end_entries = none
  lookup f (entry k v es) = if str_eq k f then some v else lookup f es

  unfoldable pub nth : ℕ → Items A → Option (Value A)
  nth i end_items = none
  nth zero (item v vs) = some v
  nth (suc i) (item v vs) = nth i vs

  -- the index of the last item
  unfoldable pub last_index : Items A → ℕ
  last_index end_items = 0
  last_index (item v end_items) = 0
  last_index (item v (item w vs)) = suc (last_index (item w vs))

  abbrev pub first : Items A → Option (Value A)
  first vs = nth 0 vs

  abbrev pub last : Items A → Option (Value A)
  last vs = nth (last_index vs) vs

  abbrev pub map_items : (Value A → Value A) → Items A → Items A
  map_items f end_items = end_items
  map_items f (item v vs) = item (f v) (map_items f vs)

  abbrev pub or_none : (Value A → Value A) → Option (Value A) → Value A
  or_none rest none = none_value
  or_none rest (some v) = rest v

  -- One part of a path, `rest` what is behind it. A part that an array has no use for is looked up in
  -- each of its items.
  unfoldable mutual
    unfolding lookup nth last_index

    pub pick_step : (Value A → Value A) → Part A → Value A → Value A
    pick_step rest (field_part f) (object_value es) = or_none rest (lookup f es)
    pick_step rest all_part (object_value es) = rest (object_value es)
    pick_step rest any_part (object_value es) = none_value
    pick_step rest last_part (object_value es) = none_value
    pick_step rest first_part (object_value es) = none_value
    pick_step rest (index_part i) (object_value es) = none_value
    pick_step rest (where_part w) (object_value es) = none_value
    pick_step rest (thing_part t) (object_value es) = none_value
    pick_step rest (graph_part g) (object_value es) = none_value
    pick_step rest all_part (array_value vs) = array_value (map_items rest vs)
    pick_step rest first_part (array_value vs) = or_none rest (first vs)
    pick_step rest last_part (array_value vs) = or_none rest (last vs)
    pick_step rest (index_part i) (array_value vs) = or_none rest (nth i vs)
    pick_step rest any_part (array_value vs) = array_value (pick_items rest any_part vs)
    pick_step rest (field_part f) (array_value vs) = array_value (pick_items rest (field_part f) vs)
    pick_step rest (where_part w) (array_value vs) = array_value (pick_items rest (where_part w) vs)
    pick_step rest (thing_part t) (array_value vs) = array_value (pick_items rest (thing_part t) vs)
    pick_step rest (graph_part g) (array_value vs) = array_value (pick_items rest (graph_part g) vs)
    pick_step rest p none_value = none_value
    pick_step rest p null_value = none_value
    pick_step rest p (leaf_value x) = none_value

    pub pick_items : (Value A → Value A) → Part A → Items A → Items A
    pick_items rest p end_items = end_items
    pick_items rest p (item v vs) = item (pick_step rest p v) (pick_items rest p vs)

  unfoldable pub pick : Idiom A → Value A → Value A
  unfolding pick_step
  pick [] v = v
  pick (p ∷ path) v = pick_step (pick path) p v

  -- the items with their indexes, each with what is found in it
  abbrev pub in_items : {B : Type 0} → (Idiom A → Value A → List B) → Idiom A → ℕ → Items A → List B
  in_items f prev i end_items = []
  in_items f prev i (item v vs) = f (push (index_part i) prev) v ++ in_items f prev (suc i) vs

  abbrev pub or_else : {B : Type 0} → List B → (Value A → List B) → Option (Value A) → List B
  or_else missing f none = missing
  or_else missing f (some v) = f v

  -- One part of `_walk` and `_each`: `missing` is what a field that is not there gives.
  unfoldable pub places :
      {B : Type 0}
      → (Idiom A → List B)
      → (Idiom A → Value A → List B)
      → Part A
      → Idiom A
      → Value A
      → List B
  unfolding lookup nth last_index
  places missing rest (field_part f) prev (object_value es) =
      or_else (missing (push (field_part f) prev)) (rest (push (field_part f) prev)) (lookup f es)
  places missing rest all_part prev (object_value es) = rest (push all_part prev) (object_value es)
  places missing rest any_part prev (object_value es) = []
  places missing rest last_part prev (object_value es) = []
  places missing rest first_part prev (object_value es) = []
  places missing rest (index_part i) prev (object_value es) = []
  places missing rest (where_part w) prev (object_value es) = []
  places missing rest (thing_part t) prev (object_value es) = []
  places missing rest (graph_part g) prev (object_value es) = []
  places missing rest first_part prev (array_value vs) =
      or_else [] (rest (push first_part prev)) (first vs)
  places missing rest last_part prev (array_value vs) =
      or_else [] (rest (push last_part prev)) (last vs)
  places missing rest (index_part i) prev (array_value vs) =
      or_else [] (rest (push (index_part i) prev)) (nth i vs)
  places missing rest all_part prev (array_value vs) = in_items rest prev 0 vs
  places missing rest any_part prev (array_value vs) = in_items rest prev 0 vs
  places missing rest (field_part f) prev (array_value vs) = in_items rest prev 0 vs
  places missing rest (where_part w) prev (array_value vs) = in_items rest prev 0 vs
  places missing rest (thing_part t) prev (array_value vs) = in_items rest prev 0 vs
  places missing rest (graph_part g) prev (array_value vs) = in_items rest prev 0 vs
  places missing rest p prev none_value = []
  places missing rest p prev null_value = []
  places missing rest p prev (leaf_value x) = []

  -- `_walk` and `_each`
  unfoldable pub walk_from : Idiom A → Idiom A → Value A → List (Idiom A × Value A)
  unfolding places
  walk_from [] prev v = (prev, v) ∷ []
  walk_from (p ∷ path) prev v = places (λ q. (q, none_value) ∷ []) (walk_from path) p prev v

  unfoldable pub each_from : Idiom A → Idiom A → Value A → List (Idiom A)
  unfolding places
  each_from [] prev v = prev ∷ []
  each_from (p ∷ path) prev v = places (λ q. []) (each_from path) p prev v

  unfoldable pub walk : Idiom A → Value A → List (Idiom A × Value A)
  unfolding walk_from
  walk path v = walk_from path [] v

  unfoldable pub each : Idiom A → Value A → List (Idiom A)
  unfolding each_from
  each path v = each_from path [] v

  -- `_every`
  unfoldable mutual
    pub every_from : Idiom A → Value A → List (Idiom A)
    every_from prev (object_value es) = every_entry prev es
    every_from prev (array_value vs) = every_item prev 0 vs
    every_from prev none_value = prev ∷ []
    every_from prev null_value = prev ∷ []
    every_from prev (leaf_value x) = prev ∷ []

    pub every_item : Idiom A → ℕ → Items A → List (Idiom A)
    every_item prev i end_items = []
    every_item prev i (item v vs) =
        every_from (push (index_part i) prev) v ++ every_item prev (suc i) vs

    pub every_entry : Idiom A → Entries A → List (Idiom A)
    every_entry prev end_entries = []
    every_entry prev (entry k v es) = every_from (push (field_part k) prev) v ++ every_entry prev es

  unfoldable pub every : Value A → List (Idiom A)
  unfolding every_from
  every v = every_from [] v
