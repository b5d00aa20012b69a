-- ===== src/Sql/Value/Set/Roundtrip.antt =====
-- lib/src/sql/value/set.rs and merge.rs against pick.rs.
use surreal_dbservice.Base.{
  ℕ, zero, suc, ◌≡◌, refl, ap, ◌∙◌, String, Bool, true, false, Bool-cases, inl, inr, Option, none,
  some, [], ◌∷◌, arith, str_eq, eq_iff, if◌then◌else◌,
}
use surreal_dbservice.Err.{Result, ok, err}
use surreal_dbservice.Sql.Value.{
  Atoms, Value, Items, Entries, Idiom, none_value, null_value, leaf_value, object_value,
  array_value, end_items, item, end_entries, entry, any_part, all_part, last_part, first_part,
  field_part, index_part, where_part, thing_part, graph_part, lookup, nth, pick, pick_step,
}
use surreal_dbservice.Sql.Value.Leaves.{KeysDifferEntries, KeysDiffer}
use surreal_dbservice.Sql.Value.Set.{
  Evaluator, Run, after, pure, insert, base, target, set_key, set_nth, set_step, set, merge_entries,
  merge,
}

module _ {A : Atoms} (T : Evaluator A) where
  -- An insertion is found under its key, and the other keys are as before.
  pub lookup-insert :
      (k g : String) (v : Value A) (es : Entries A)
      → lookup g (insert T k v es) ≡ (if str_eq k g then some v else lookup g es)
  unfolding lookup insert
  lookup-insert k g v end_entries = refl
  lookup-insert k g v (entry j w es) =
      ground (arith, eq_iff j k, eq_iff j g, eq_iff k g, lookup-insert k g v es)

  abbrev if_there : (Value A → Bool) → Option (Value A) → Bool
  if_there test none = false
  if_there test (some w) = test w

  -- The path leads through objects, by fields, and through items that are there, by indexes; what is
  -- not there, or is NONE or NULL, becomes an object.
  unfoldable pub reaches : Idiom A → Value A → Bool
  unfolding lookup nth
  reaches [] v = true
  reaches (field_part f ∷ path) (object_value es) = reaches path (target T (lookup f es))
  reaches (field_part f ∷ path) none_value = reaches path (base T)
  reaches (field_part f ∷ path) null_value = reaches path (base T)
  reaches (index_part i ∷ path) (array_value vs) = if_there (reaches path) (nth i vs)
  reaches _ _ = false

  set_nth-eq :
      (rest : Value A → Run T (Value A)) (i : ℕ) (vs : Items A) (w w' : Value A) (s : T.State)
      → nth i vs ≡ some w
      → rest w s ≡ (ok w', s)
      → (ws : Items A) × (set_nth T rest i vs s ≡ (ok ws, s)) × (nth i ws ≡ some w')
  unfolding nth set_nth
  set_nth-eq rest i end_items w w' s e r = cc
  set_nth-eq rest zero (item v vs) w w' s e r =
      let same : v ≡ w = cc in (item w' vs, rw (same, r) refl, refl)
  set_nth-eq rest (suc i) (item v vs) w w' s e r =
      let (ws, eq, found) = set_nth-eq rest i vs w w' s e r in (item v ws, rw eq refl, found)

  pick-here : (v : Value A) → pick [] v ≡ v
  unfolding pick
  pick-here v = refl

  -- How a set of `val` under a path ends.
  abbrev Placed : Idiom A → Value A → Value A → T.State → Type 0
  Placed path val v s = (v' : Value A) × (set T path val v s ≡ (ok v', s)) × (pick path v' ≡ val)

  field-Placed :
      (f : String) (path : Idiom A) (val : Value A) (es : Entries A) (s : T.State)
      → Placed path val (target T (lookup f es)) s
      → (v' : Value A) × (set_key T (set T path val) f es s ≡ (ok v', s))
        × (pick (field_part f ∷ path) v' ≡ val)
  unfolding set_key pick pick_step
  field-Placed f path val es s (w, placed, picked) = (
    object_value (insert T f w es),
    rw placed refl,
    rw (lookup-insert f f w es) (ground (arith, eq_iff f f, picked)),
  )

  index-Placed :
      (i : ℕ) (path : Idiom A) (val w : Value A) (vs : Items A) (s : T.State)
      → nth i vs ≡ some w
      → Placed path val w s
      → Placed (index_part i ∷ path) val (array_value vs) s
  unfolding set set_step pick pick_step
  index-Placed i path val w vs s e (w', placed, picked) =
      let (ws, eq, found) = set_nth-eq (set T path val) i vs w w' s e placed in
      (array_value ws, rw eq refl, rw found picked)

  at_index :
      (i : ℕ) (path : Idiom A) (val : Value A) (vs : Items A) (s : T.State) (o : Option (Value A))
      → nth i vs ≡ o
      → reaches (index_part i ∷ path) (array_value vs) ≡ true
      → ((w : Value A) → reaches path w ≡ true → Placed path val w s)
      → Placed (index_part i ∷ path) val (array_value vs) s
  unfolding reaches
  at_index i path val vs s none n e ih = let no : false ≡ true = rw n at e in cc
  at_index i path val vs s (some w) n e ih =
      let behind : reaches path w ≡ true = rw n at e in
      index-Placed i path val w vs s n (ih w behind)

  -- What is set under a path of fields and indexes is read back by the same path: where the path leads
  -- through objects and through items that are there, `set` succeeds without a condition to evaluate,
  -- and `pick` finds the value.
  pub pick-set :
      (path : Idiom A) (val v : Value A) (s : T.State)
      → reaches path v ≡ true
      → (v' : Value A) × (set T path val v s ≡ (ok v', s)) × (pick path v' ≡ val)
  unfolding set set_step reaches
  pick-set [] val v s e = (val, refl, pick-here val)
  pick-set (field_part f ∷ path) val (object_value es) s e =
      field-Placed f path val es s (pick-set path val (target T (lookup f es)) s e)
  pick-set (field_part f ∷ path) val none_value s e =
      field-Placed f path val end_entries s (pick-set path val (base T) s e)
  pick-set (field_part f ∷ path) val null_value s e =
      field-Placed f path val end_entries s (pick-set path val (base T) s e)
  pick-set (field_part f ∷ path) val (leaf_value x) s e = cc
  pick-set (field_part f ∷ path) val (array_value vs) s e = cc
  pick-set (index_part i ∷ path) val (array_value vs) s e =
      at_index i path val vs s (nth i vs) refl e (λ w h. pick-set path val w s h)
  pick-set (index_part i ∷ path) val (object_value es) s e = cc
  pick-set (index_part i ∷ path) val none_value s e = cc
  pick-set (index_part i ∷ path) val null_value s e = cc
  pick-set (index_part i ∷ path) val (leaf_value x) s e = cc
  pick-set (any_part ∷ path) val v s e = cc
  pick-set (all_part ∷ path) val v s e = cc
  pick-set (last_part ∷ path) val v s e = cc
  pick-set (first_part ∷ path) val v s e = cc
  pick-set (where_part w ∷ path) val v s e = cc
  pick-set (thing_part t ∷ path) val v s e = cc
  pick-set (graph_part g ∷ path) val v s e = cc

  -- one key of an object, whatever is set behind it
  key_keeps :
      (f g : String) (r : Idiom A) (es : Entries A) (o : Result (Value A) × T.State) (v' : Value A)
      (s' : T.State)
      → str_eq f g ≡ false
      → after T o (λ v. pure T (object_value (insert T f v es))) ≡ (ok v', s')
      → pick (field_part g ∷ r) v' ≡ pick (field_part g ∷ r) (object_value es)
  unfolding pick pick_step
  key_keeps f g r es (err e, s) v' s' apart h = cc
  key_keeps f g r es (ok w, s) v' s' apart h =
      let same : object_value (insert T f w es) ≡ v' = cc in
      rw (← same) (rw (lookup-insert f g w es, apart) refl)

  -- A set below a field of an object changes no other field: whatever the path goes on with, and
  -- whatever conditions are evaluated on the way, a set that succeeds leaves what is read under another
  -- field as it was.
  pub pick-set_other :
      (f g : String) (path r : Idiom A) (val : Value A) (es : Entries A) (s s' : T.State)
      (v' : Value A)
      → str_eq f g ≡ false
      → set T (field_part f ∷ path) val (object_value es) s ≡ (ok v', s')
      → pick (field_part g ∷ r) v' ≡ pick (field_part g ∷ r) (object_value es)
  unfolding set set_step set_key
  pick-set_other f g path r val es s s' v' apart h =
      key_keeps f g r es (set T path val (target T (lookup f es)) s) v' s' apart h

  -- the first of two that is there
  abbrev pub or_other : Option (Value A) → Option (Value A) → Option (Value A)
  or_other none o = o
  or_other (some v) o = some v

  one_more :
      (k f : String) (x : Value A) (es fs : Entries A)
      → lookup k es ≡ none
      → or_other (lookup f es) (if str_eq k f then some x else lookup f fs)
        ≡ or_other (lookup f (entry k x es)) (lookup f fs)
  unfolding lookup
  one_more k f x es fs fresh = elim (Bool-cases (str_eq k f)) [
    | inl same ↦
        let gone : lookup f es ≡ none = ground (arith, eq_iff k f, fresh) in rw (same, gone) refl
    | inr apart ↦ rw apart refl
  ]

  merge-eq :
      (es fs : Entries A) (s : T.State)
      → KeysDifferEntries es
      → (r : Entries A) × (merge_entries T es (object_value fs) s ≡ (ok (object_value r), s))
        × ((f : String) → lookup f r ≡ or_other (lookup f es) (lookup f fs))
  unfolding merge_entries set set_step set_key KeysDiffer lookup
  merge-eq end_entries fs s h = (fs, refl, λ f. refl)
  merge-eq (entry k x es) fs s h =
      let (r, eq, found) = merge-eq es (insert T k x fs) s h.2 in
      (
        r,
        eq,
        λ f.
            found f
            ∙ ap (or_other (lookup f es)) (lookup-insert k f x fs)
            ∙ one_more k f x es fs h.1,
      )

  -- A merge of an object into another one succeeds, and gives the entries of the first one, and where
  -- it has none, those of the second; the keys of the first one differ.
  pub lookup-merge :
      (es fs : Entries A) (s : T.State)
      → KeysDifferEntries es
      → (r : Entries A) × (merge T (object_value es) (object_value fs) s ≡ (ok (object_value r), s))
        × ((f : String) → lookup f r ≡ or_other (lookup f es) (lookup f fs))
  unfolding merge
  lookup-merge es fs s h = merge-eq es fs s h
