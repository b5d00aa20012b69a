-- ===== src/Sql/Value/Set.antt =====
-- lib/src/sql/value: set.rs, merge.rs and replace.rs. A value is given back where the source changes it
-- in place; what an error leaves of it is not modelled, since an error ends the statement. The items of
-- an array are set in their order.
pub mod Roundtrip
use surreal_dbservice.Base.{
  ℕ, zero, suc, String, Bool, true, false, Option, none, some, [], ◌∷◌, str_eq, if◌then◌else◌,
}
use surreal_dbservice.Err.{Result, ok, err}
use surreal_dbservice.Sql.Value.{
  Atoms, Value, Items, Entries, Part, Idiom, none_value, null_value, leaf_value, object_value,
  array_value, end_items, item, end_entries, entry, any_part, all_part, last_part, first_part,
  field_part, index_part, where_part, thing_part, graph_part, lookup, last_index,
}

-- What the code calls: the evaluation of a condition on a value, which works on a state, the order of
-- the keys of an object, and the texts of a record and of a graph.
pub record Evaluator (A : Atoms) : Type 1 where
  pub State : Type 0
  pub holds : A.Cond → Value A → State → Result Bool × State
  pub before : String → String → Bool
  pub thing_raw : A.Thing → String
  pub graph_raw : A.Graph → String

module _ {A : Atoms} (T : Evaluator A) where
  abbrev pub Run : Type 0 → Type 0
  Run B = T.State → Result B × T.State

  abbrev pub after : {B C : Type 0} → Result B × T.State → (B → Run C) → Result C × T.State
  after (err e, s) f = (err e, s)
  after (ok v, s) f = f v s

  abbrev pub pure : {B : Type 0} → B → Run B
  pure v s = (ok v, s)

  -- `BTreeMap::insert`
  unfoldable pub insert : String → Value A → Entries A → Entries A
  insert k v end_entries = entry k v end_entries
  insert k v (entry j w es) =
      let rest = insert k v es in
      if str_eq j k
      then entry k v es
      else if T.before k j
      then entry k v (entry j w es)
      else entry j w rest

  -- `Value::base`
  abbrev pub base : Value A
  base = object_value end_entries

  -- what is set into: the value that is there, unless it is NONE or NULL
  abbrev pub target : Option (Value A) → Value A
  target none = base
  target (some none_value) = base
  target (some null_value) = base
  target (some (leaf_value x)) = leaf_value x
  target (some (object_value es)) = object_value es
  target (some (array_value vs)) = array_value vs

  unfoldable pub set_key : (Value A → Run (Value A)) → String → Entries A → Run (Value A)
  unfolding insert lookup
  set_key rest k es s =
      after (rest (target (lookup k es)) s) (λ v. pure (object_value (insert k v es)))

  abbrev pub set_entry : (Value A → Run (Value A)) → Part A → Entries A → Run (Value A)
  set_entry rest (field_part f) es = set_key rest f es
  set_entry rest (thing_part t) es = set_key rest (T.thing_raw t) es
  set_entry rest (graph_part g) es = set_key rest (T.graph_raw g) es
  set_entry rest any_part es = pure (object_value es)
  set_entry rest all_part es = pure (object_value es)
  set_entry rest last_part es = pure (object_value es)
  set_entry rest first_part es = pure (object_value es)
  set_entry rest (index_part i) es = pure (object_value es)
  set_entry rest (where_part w) es = pure (object_value es)

  abbrev pub set_each : (Value A → Run (Value A)) → Items A → Run (Items A)
  set_each rest end_items s = pure end_items s
  set_each rest (item v vs) s =
      after (rest v s) (λ w s. after (set_each rest vs s) (λ ws. pure (item w ws)))

  -- the item at an index, if there is one
  unfoldable pub set_nth : (Value A → Run (Value A)) → ℕ → Items A → Run (Items A)
  set_nth rest i end_items s = pure end_items s
  set_nth rest zero (item v vs) s = after (rest v s) (λ w. pure (item w vs))
  set_nth rest (suc i) (item v vs) s = after (set_nth rest i vs s) (λ ws. pure (item v ws))

  abbrev pub set_if : (Value A → Run (Value A)) → Value A → Bool → Run (Value A)
  set_if rest v truthy = if truthy then rest v else pure v

  abbrev pub set_where : (Value A → Run (Value A)) → A.Cond → Items A → Run (Items A)
  set_where rest c end_items s = pure end_items s
  set_where rest c (item v vs) s = after (T.holds c v s) (λ truthy s.
      after (set_if rest v truthy s)
        (λ w s. after (set_where rest c vs s) (λ ws. pure (item w ws))))

  abbrev pub as_array : Result (Items A) × T.State → Result (Value A) × T.State
  as_array r = after r (λ vs. pure (array_value vs))

  -- one part of a path, `rest` what is behind it
  unfoldable mutual
    unfolding set_key set_nth last_index

    pub set_step : (Value A → Run (Value A)) → Part A → Value A → Run (Value A)
    set_step rest p (object_value es) s = set_entry rest p es s
    set_step rest p none_value s = set_entry rest p end_entries s
    set_step rest p null_value s = set_entry rest p end_entries s
    set_step rest p (leaf_value x) s = pure (leaf_value x) s
    set_step rest all_part (array_value vs) s = as_array (set_each rest vs s)
    set_step rest first_part (array_value vs) s = as_array (set_nth rest 0 vs s)
    set_step rest last_part (array_value vs) s = as_array (set_nth rest (last_index vs) vs s)
    set_step rest (index_part i) (array_value vs) s = as_array (set_nth rest i vs s)
    set_step rest (where_part w) (array_value vs) s = as_array (set_where rest w vs s)
    set_step rest any_part (array_value vs) s = as_array (set_items rest any_part vs s)
    set_step rest (field_part f) (array_value vs) s = as_array (set_items rest (field_part f) vs s)
    set_step rest (thing_part t) (array_value vs) s = as_array (set_items rest (thing_part t) vs s)
    set_step rest (graph_part g) (array_value vs) s = as_array (set_items rest (graph_part g) vs s)

    pub set_items : (Value A → Run (Value A)) → Part A → Items A → Run (Items A)
    set_items rest p end_items s = pure end_items s
    set_items rest p (item v vs) s =
        after (set_step rest p v s) (λ w s. after (set_items rest p vs s) (λ ws. pure (item w ws)))

  unfoldable pub set : Idiom A → Value A → Value A → Run (Value A)
  unfolding set_step
  set [] val v s = pure val s
  set (p ∷ path) val v s = set_step (set path val) p v s

  unfoldable pub merge_entries : Entries A → Value A → Run (Value A)
  unfolding set
  merge_entries end_entries v s = pure v s
  merge_entries (entry k x es) v s = after (set (field_part k ∷ []) x v s) (merge_entries es)

  -- `merge`: the value that is merged into comes last
  unfoldable pub merge : Value A → Value A → Run (Value A)
  unfolding merge_entries
  merge (object_value es) v = merge_entries es v
  merge none_value v = pure v
  merge null_value v = pure v
  merge (leaf_value x) v = pure v
  merge (array_value vs) v = pure v

  unfoldable pub replace : Value A → Value A → Run (Value A)
  replace (object_value es) v = pure (object_value es)
  replace none_value v = pure v
  replace null_value v = pure v
  replace (leaf_value x) v = pure v
  replace (array_value vs) v = pure v
