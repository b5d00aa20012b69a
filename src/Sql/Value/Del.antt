-- ===== src/Sql/Value/Del.antt =====
-- lib/src/sql/value/del.rs. A value is given back where the source changes it in place, and the items of
-- an array are worked on in their order.
pub mod Gone
use surreal_dbservice.Base.{
  ℕ, zero, suc, String, Bool, Option, none, some, [], ◌∷◌, str_eq, if◌then◌else◌,
}
use surreal_dbservice.Err.{Result, ok, err}
use surreal_dbservice.Sql.Value.{
  Atoms, Value, Items, Entries, Part, Idiom, none_value, null_value, leaf_value, object_value,
  array_value, end_items, item, end_entries, entry, any_part, all_part, last_part, first_part,
  field_part, index_part, where_part, thing_part, graph_part, lookup, last_index,
}
use surreal_dbservice.Sql.Value.Set.{
  Evaluator, Run, after, pure, insert, set_each, set_nth, set_where, as_array,
}

module _ {A : Atoms} (T : Evaluator A) where
  -- `BTreeMap::remove`
  unfoldable pub remove : String → Entries A → Entries A
  remove k end_entries = end_entries
  remove k (entry j w es) = let rest = remove k es in if str_eq j k then rest else entry j w rest

  -- `Vec::remove` of an index, if it is there
  unfoldable pub remove_nth : ℕ → Items A → Items A
  remove_nth i end_items = end_items
  remove_nth zero (item v vs) = vs
  remove_nth (suc i) (item v vs) = item v (remove_nth i vs)

  abbrev pub item_unless : Bool → Value A → Items A → Items A
  item_unless truthy v vs = if truthy then vs else item v vs

  -- the items of which a condition holds are abolished
  abbrev pub remove_where : A.Cond → Items A → Run T (Items A)
  remove_where c end_items s = pure T end_items s
  remove_where c (item v vs) s =
      after T (T.holds c v s)
        (λ truthy s. after T (remove_where c vs s) (λ ws. pure T (item_unless truthy v ws)))

  -- the last part of a path
  unfoldable mutual
    unfolding remove remove_nth last_index

    pub del_last : Part A → Value A → Run T (Value A)
    del_last (field_part f) (object_value es) s = pure T (object_value (remove f es)) s
    del_last any_part (object_value es) s = pure T (object_value es) s
    del_last all_part (object_value es) s = pure T (object_value es) s
    del_last last_part (object_value es) s = pure T (object_value es) s
    del_last first_part (object_value es) s = pure T (object_value es) s
    del_last (index_part i) (object_value es) s = pure T (object_value es) s
    del_last (where_part w) (object_value es) s = pure T (object_value es) s
    del_last (thing_part t) (object_value es) s = pure T (object_value es) s
    del_last (graph_part g) (object_value es) s = pure T (object_value es) s
    del_last all_part (array_value vs) s = pure T (array_value end_items) s
    del_last first_part (array_value vs) s = pure T (array_value (remove_nth 0 vs)) s
    del_last last_part (array_value vs) s = pure T (array_value (remove_nth (last_index vs) vs)) s
    del_last (index_part i) (array_value vs) s = pure T (array_value (remove_nth i vs)) s
    del_last (where_part w) (array_value vs) s = as_array T (remove_where w vs s)
    del_last any_part (array_value vs) s = as_array T (del_last_items any_part vs s)
    del_last (field_part f) (array_value vs) s = as_array T (del_last_items (field_part f) vs s)
    del_last (thing_part t) (array_value vs) s = as_array T (del_last_items (thing_part t) vs s)
    del_last (graph_part g) (array_value vs) s = as_array T (del_last_items (graph_part g) vs s)
    del_last p none_value s = pure T none_value s
    del_last p null_value s = pure T null_value s
    del_last p (leaf_value x) s = pure T (leaf_value x) s

    pub del_last_items : Part A → Items A → Run T (Items A)
    del_last_items p end_items s = pure T end_items s
    del_last_items p (item v vs) s =
        after T (del_last p v s) (λ w s. after T (del_last_items p vs s) (λ ws. pure T (item w ws)))

  -- a key that is there, and holds neither NONE nor NULL, is worked on
  abbrev pub del_in :
      (Value A → Run T (Value A)) → String → Entries A → Option (Value A) → Run T (Value A)
  del_in rest f es none s = pure T (object_value es) s
  del_in rest f es (some none_value) s = pure T (object_value es) s
  del_in rest f es (some null_value) s = pure T (object_value es) s
  del_in rest f es (some (leaf_value x)) s =
      after T (rest (leaf_value x) s) (λ v. pure T (object_value (insert T f v es)))
  del_in rest f es (some (object_value fs)) s =
      after T (rest (object_value fs) s) (λ v. pure T (object_value (insert T f v es)))
  del_in rest f es (some (array_value vs)) s =
      after T (rest (array_value vs) s) (λ v. pure T (object_value (insert T f v es)))

  -- one part of a path, `rest` what is behind it
  unfoldable mutual
    unfolding insert lookup set_nth last_index

    pub del_step : (Value A → Run T (Value A)) → Part A → Value A → Run T (Value A)
    del_step rest (field_part f) (object_value es) s = del_in rest f es (lookup f es) s
    del_step rest any_part (object_value es) s = pure T (object_value es) s
    del_step rest all_part (object_value es) s = pure T (object_value es) s
    del_step rest last_part (object_value es) s = pure T (object_value es) s
    del_step rest first_part (object_value es) s = pure T (object_value es) s
    del_step rest (index_part i) (object_value es) s = pure T (object_value es) s
    del_step rest (where_part w) (object_value es) s = pure T (object_value es) s
    del_step rest (thing_part t) (object_value es) s = pure T (object_value es) s
    del_step rest (graph_part g) (object_value es) s = pure T (object_value es) s
    del_step rest all_part (array_value vs) s = as_array T (set_each T rest vs s)
    del_step rest first_part (array_value vs) s = as_array T (set_nth T rest 0 vs s)
    del_step rest last_part (array_value vs) s = as_array T (set_nth T rest (last_index vs) vs s)
    del_step rest (index_part i) (array_value vs) s = as_array T (set_nth T rest i vs s)
    del_step rest (where_part w) (array_value vs) s = as_array T (set_where T rest w vs s)
    del_step rest any_part (array_value vs) s = as_array T (del_items rest any_part vs s)
    del_step rest (field_part f) (array_value vs) s =
        as_array T (del_items rest (field_part f) vs s)
    del_step rest (thing_part t) (array_value vs) s =
        as_array T (del_items rest (thing_part t) vs s)
    del_step rest (graph_part g) (array_value vs) s =
        as_array T (del_items rest (graph_part g) vs s)
    del_step rest p none_value s = pure T none_value s
    del_step rest p null_value s = pure T null_value s
    del_step rest p (leaf_value x) s = pure T (leaf_value x) s

    pub del_items : (Value A → Run T (Value A)) → Part A → Items A → Run T (Items A)
    del_items rest p end_items s = pure T end_items s
    del_items rest p (item v vs) s =
        after T (del_step rest p v s)
          (λ w s. after T (del_items rest p vs s) (λ ws. pure T (item w ws)))

  unfoldable pub del : Idiom A → Value A → Run T (Value A)
  unfolding del_last del_step
  del [] v s = pure T v s
  del (p ∷ []) v s = del_last p v s
  del (p ∷ q ∷ path) v s = del_step (del (q ∷ path)) p v s
