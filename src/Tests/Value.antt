-- ===== src/Tests/Value.antt =====
-- lib/src/sql/value on the value of its unit tests.
use surreal_dbservice.Base.{ℕ, String, ◌≡◌, refl, true, [], ◌∷◌}
use surreal_dbservice.Base.Lists.{All}
use surreal_dbservice.Sql.Value.{
  Atoms, Value, Idiom, Entries, none_value, leaf_value, object_value, array_value, end_items, item,
  end_entries, entry, all_part, field_part, index_part, lookup, nth, pick, walk, walk_from, each,
  each_from, places, every, every_from,
}
use surreal_dbservice.Sql.Value.Paths.{walk_picks}
use surreal_dbservice.Sql.Value.Leaves.{every_leads, is_leaf, KeysDiffer, KeysDifferEntries}
use surreal_dbservice.Sql.Value.Set.{Evaluator, set, set_step, set_key, insert, merge}
use surreal_dbservice.Sql.Value.Set.Roundtrip.{
  reaches, pick-set, pick-set_other, lookup-merge, or_other,
}
use surreal_dbservice.Sql.Value.Del.{del, del_last, remove_nth}
use surreal_dbservice.Sql.Value.Del.Gone.{through, fields, pick-del}
use surreal_dbservice.Err.{ok}
use surreal_dbservice.Kvs.Order.{key_ltb}
use surreal_dbservice.Tests.Keys.{letters, to_list}

abbrev atoms : Atoms
atoms = record { Leaf = ℕ; Cond = Unit; Thing = Unit; Graph = Unit }

abbrev person : ℕ → Value atoms
person n = object_value (entry "age" (leaf_value n) end_entries)

-- { test: { something: [{ age: 34 }, { age: 36 }] } }
abbrev doc : Value atoms
doc = object_value (
    entry "test"
      (object_value (
        entry "something" (array_value (item (person 34) (item (person 36) end_items)))
          end_entries))
      end_entries)

abbrev at_item : ℕ → Idiom atoms
at_item i = field_part "test" ∷ field_part "something" ∷ index_part i ∷ []

abbrev age_of : ℕ → Idiom atoms
age_of i = field_part "test" ∷ field_part "something" ∷ index_part i ∷ field_part "age" ∷ []

-- test.something[*].age
abbrev ages : Idiom atoms
ages = field_part "test" ∷ field_part "something" ∷ all_part ∷ field_part "age" ∷ []

walk_ages : walk ages doc ≡ (age_of 0, leaf_value 34) ∷ (age_of 1, leaf_value 36) ∷ []
unfolding walk walk_from places lookup nth
walk_ages = refl

-- test.something.age: the field is dropped, and the places are the items
walk_items :
    walk (field_part "test" ∷ field_part "something" ∷ field_part "age" ∷ []) doc
    ≡ (at_item 0, person 34) ∷ (at_item 1, person 36) ∷ []
unfolding walk walk_from places lookup nth
walk_items = refl

each_ages : each ages doc ≡ age_of 0 ∷ age_of 1 ∷ []
unfolding each each_from places lookup nth
each_ages = refl

every_doc : every doc ≡ age_of 0 ∷ age_of 1 ∷ []
unfolding every every_from
every_doc = refl

walk_picks_example : All (λ b. pick b.0 doc ≡ b.1) (walk ages doc)
walk_picks_example = walk_picks ages doc

doc-KeysDiffer : KeysDiffer doc
unfolding KeysDiffer lookup
doc-KeysDiffer = ((((tt, refl, tt), ((tt, refl, tt), tt)), refl, tt), refl, tt)

every_leads_example : All (λ q. is_leaf (pick q doc) ≡ true) (every doc)
every_leads_example = every_leads doc doc-KeysDiffer

abbrev evaluator : Evaluator atoms
evaluator = record {
  State = Unit;
  holds = λ c v s. (ok true, s);
  before = λ a b. key_ltb (letters (to_list a)) (letters (to_list b));
  thing_raw = λ t. "thing";
  graph_raw = λ g. "graph";
}

doc-reaches : reaches evaluator (age_of 1) doc ≡ true
unfolding reaches lookup nth
doc-reaches = refl

pick-set_example :
    (v' : Value atoms) × (set evaluator (age_of 1) (leaf_value 37) doc tt ≡ (ok v', tt))
    × (pick (age_of 1) v' ≡ leaf_value 37)
pick-set_example = pick-set evaluator (age_of 1) (leaf_value 37) doc tt doc-reaches

abbrev entries : Entries atoms
entries = entry "age" (leaf_value 34) (entry "name" (leaf_value 1) end_entries)

-- a field that is set beside the name
set_age : set evaluator (field_part "age" ∷ []) (leaf_value 35) (object_value entries) tt ≡ (
  ok (object_value (entry "age" (leaf_value 35) (entry "name" (leaf_value 1) end_entries))),
  tt,
)
unfolding set set_step set_key insert lookup key_ltb
set_age = refl

pick-set_other_example :
    pick
      (field_part "name" ∷ [])
      (object_value (entry "age" (leaf_value 35) (entry "name" (leaf_value 1) end_entries)))
    ≡ pick (field_part "name" ∷ []) (object_value entries)
pick-set_other_example =
    pick-set_other evaluator "age" "name" [] [] (leaf_value 35) entries tt tt
      (object_value (entry "age" (leaf_value 35) (entry "name" (leaf_value 1) end_entries))) refl
      set_age

entries-KeysDifferEntries : KeysDifferEntries entries
unfolding KeysDiffer lookup
entries-KeysDifferEntries = (tt, refl, (tt, refl, tt))

lookup-merge_example :
    (r : Entries atoms) × (merge evaluator
        (object_value entries)
        (object_value (entry "age" (leaf_value 33) (entry "id" (leaf_value 9) end_entries)))
        tt
      ≡ (ok (object_value r), tt))
    × ((f : String)
        → lookup f r
          ≡ or_other evaluator
              (lookup f entries)
              (lookup f (entry "age" (leaf_value 33) (entry "id" (leaf_value 9) end_entries))))
lookup-merge_example =
    lookup-merge evaluator entries
      (entry "age" (leaf_value 33) (entry "id" (leaf_value 9) end_entries)) tt
      entries-KeysDifferEntries

doc-through : through evaluator ("test" ∷ "something" ∷ []) doc ≡ true
unfolding through lookup
doc-through = refl

pick-del_example :
    (v' : Value atoms) × (del evaluator (fields evaluator ("test" ∷ "something" ∷ [])) doc tt
      ≡ (ok v', tt))
    × (pick (fields evaluator ("test" ∷ "something" ∷ [])) v' ≡ none_value)
pick-del_example = pick-del evaluator "test" ("something" ∷ []) doc tt doc-through

-- the first of two deletions moves the item that the second one is to delete
shifted :
    del evaluator
      (index_part 0 ∷ [])
      (array_value (item (person 34) (item (person 36) end_items)))
      tt
    ≡ (ok (array_value (item (person 36) end_items)), tt)
unfolding del del_last remove_nth
shifted = refl

missed :
    del evaluator (index_part 1 ∷ []) (array_value (item (person 36) end_items)) tt
    ≡ (ok (array_value (item (person 36) end_items)), tt)
unfolding del del_last remove_nth
missed = refl
