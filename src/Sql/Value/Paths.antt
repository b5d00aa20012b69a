-- ===== src/Sql/Value/Paths.antt =====
-- lib/src/sql/value/walk.rs and each.rs against pick.rs.
use surreal_dbservice.Base.{
  ℕ, suc, ◌+◌, ◌≡◌, refl, sym, ap, ◌∙◌, Option, none, some, List, [], ◌∷◌, ◌++◌, arith,
}
use mathlib.Core.List.{append_assoc, append-nil}
use surreal_dbservice.Base.Lists.{All, All-append}
use surreal_dbservice.Sql.Value.{
  Atoms, Value, Items, Part, Idiom, none_value, null_value, leaf_value, object_value, array_value,
  end_items, item, any_part, all_part, last_part, first_part, field_part, index_part, where_part,
  thing_part, graph_part, push, lookup, nth, first, last, in_items, or_else, or_none, pick_step,
  pick, places, walk_from, walk,
}

module _ {A : Atoms} {B : Type 0} (v : Value A) (place : B → Idiom A) (value : B → Value A) where
  -- a place that is found below `prev` in `v` is a path to its value
  pub record Found (prev : Idiom A) (b : B) : Type 0 where
    pub below : Idiom A
    pub path : place b ≡ prev ++ below
    pub picked : pick below v ≡ value b

module _ {A : Atoms} {B : Type 0} (place : B → Idiom A) (value : B → Value A) where
  -- what is found behind one more part
  All-behind :
      (v w : Value A) (p : Part A) (prev : Idiom A) (bs : List B)
      → ((r : Idiom A) → pick (p ∷ r) v ≡ pick r w)
      → All (Found w place value (push p prev)) bs
      → All (Found v place value prev) bs
  All-behind v w p prev [] same h = tt
  All-behind v w p prev (b ∷ bs) same (x, h) = (
    record {
      below = p ∷ x.below;
      path = x.path ∙ append_assoc prev (p ∷ []) x.below;
      picked = same x.below ∙ x.picked;
    },
    All-behind v w p prev bs same h,
  )

  module _ (rest : Idiom A → Value A → List B)
      (holds : (w : Value A) (prev : Idiom A) → All (Found w place value prev) (rest prev w)) where
    or_else-Found :
        (v : Value A) (p : Part A) (prev : Idiom A) (gap : List B) (o : Option (Value A))
        → ((r : Idiom A) → pick (p ∷ r) v ≡ or_none (pick r) o)
        → (pick (p ∷ []) v ≡ none_value → All (Found v place value prev) gap)
        → All (Found v place value prev) (or_else gap (rest (push p prev)) o)
    or_else-Found v p prev gap none step m = m (step [])
    or_else-Found v p prev gap (some w) step m =
        All-behind v w p prev (rest (push p prev) w) step (holds w (push p prev))

    in_items-Found :
        (v : Value A) (prev : Idiom A) (i : ℕ) (vs : Items A)
        → ((j : ℕ) (r : Idiom A) → pick (index_part (i + j) ∷ r) v ≡ or_none (pick r) (nth j vs))
        → All (Found v place value prev) (in_items rest prev i vs)
    unfolding nth
    in_items-Found v prev i end_items step = tt
    in_items-Found v prev i (item w ws) step =
        let here : i + 0 ≡ i = omega arith in
        let next : (j : ℕ) → i + suc j ≡ suc i + j = λ j. omega arith in
        All-append (Found v place value prev) (rest (push (index_part i) prev) w)
          (in_items rest prev (suc i) ws)
          (All-behind v w (index_part i) prev (rest (push (index_part i) prev) w)
            (λ r. rw here at (step 0 r)) (holds w (push (index_part i) prev)))
          (in_items-Found v prev (suc i) ws (λ j r. rw (next j) at (step (suc j) r)))

    array-Found :
        (prev : Idiom A) (vs : Items A)
        → All (Found (array_value vs) place value prev) (in_items rest prev 0 vs)
    unfolding pick pick_step
    array-Found prev vs =
        in_items-Found (array_value vs) prev 0 vs
          (λ j r. let same : 0 + j ≡ j = omega arith in rw same refl)

    module _ (missing : Idiom A → List B)
        (absent : (v : Value A) (p : Part A) (prev : Idiom A)
          → pick (p ∷ []) v ≡ none_value
          → All (Found v place value prev) (missing (push p prev))) where
      places-Found :
          (p : Part A) (prev : Idiom A) (v : Value A)
          → All (Found v place value prev) (places missing rest p prev v)
      unfolding places pick pick_step
      places-Found (field_part f) prev (object_value es) =
          or_else-Found (object_value es) (field_part f) prev _ (lookup f es) (λ r. refl)
            (absent (object_value es) (field_part f) prev)
      places-Found all_part prev (object_value es) =
          All-behind (object_value es) (object_value es) all_part prev _ (λ r. refl)
            (holds (object_value es) (push all_part prev))
      places-Found any_part prev (object_value es) = tt
      places-Found last_part prev (object_value es) = tt
      places-Found first_part prev (object_value es) = tt
      places-Found (index_part i) prev (object_value es) = tt
      places-Found (where_part w) prev (object_value es) = tt
      places-Found (thing_part t) prev (object_value es) = tt
      places-Found (graph_part g) prev (object_value es) = tt
      places-Found first_part prev (array_value vs) =
          or_else-Found (array_value vs) first_part prev [] (first vs) (λ r. refl) (λ e. tt)
      places-Found last_part prev (array_value vs) =
          or_else-Found (array_value vs) last_part prev [] (last vs) (λ r. refl) (λ e. tt)
      places-Found (index_part i) prev (array_value vs) =
          or_else-Found (array_value vs) (index_part i) prev [] (nth i vs) (λ r. refl) (λ e. tt)
      places-Found all_part prev (array_value vs) = array-Found prev vs
      places-Found any_part prev (array_value vs) = array-Found prev vs
      places-Found (field_part f) prev (array_value vs) = array-Found prev vs
      places-Found (where_part w) prev (array_value vs) = array-Found prev vs
      places-Found (thing_part t) prev (array_value vs) = array-Found prev vs
      places-Found (graph_part g) prev (array_value vs) = array-Found prev vs
      places-Found p prev none_value = tt
      places-Found p prev null_value = tt
      places-Found p prev (leaf_value x) = tt

module _ {A : Atoms} where
  abbrev FoundPair : Idiom A → Value A → Idiom A × Value A → Type 0
  FoundPair prev v b = Found {A = A} v (λ (x : Idiom A × Value A). x.0) (λ x. x.1) prev b

  walk_from-Found :
      (path prev : Idiom A) (v : Value A) → All (FoundPair prev v) (walk_from path prev v)
  unfolding walk_from pick
  walk_from-Found [] prev v =
      (record { below = []; path = sym (append-nil prev); picked = refl }, tt)
  walk_from-Found (p ∷ path) prev v =
      places-Found (λ x. x.0) (λ x. x.1) (walk_from path) (λ w q. walk_from-Found path q w)
        (λ q. (q, none_value) ∷ [])
        (λ w q before e. (record { below = q ∷ []; path = refl; picked = e }, tt)) p prev v

  at_paths :
      (v : Value A) (bs : List (Idiom A × Value A))
      → All (FoundPair [] v) bs
      → All (λ b. pick b.0 v ≡ b.1) bs
  at_paths v [] h = tt
  at_paths v (b ∷ bs) (x, h) = (ap (λ q. pick q v) x.path ∙ x.picked, at_paths v bs h)

  -- Each place that `walk` finds for a path comes with a path of its own, by which `pick` reads exactly
  -- the value that `walk` gives for the place; a field that is not there reads as NONE.
  pub walk_picks : (path : Idiom A) (v : Value A) → All (λ b. pick b.0 v ≡ b.1) (walk path v)
  unfolding walk
  walk_picks path v = at_paths v (walk path v) (walk_from-Found path [] v)
