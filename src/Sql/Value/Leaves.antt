-- ===== src/Sql/Value/Leaves.antt =====
-- lib/src/sql/value/every.rs against pick.rs.
use surreal_dbservice.Base.{
  ℕ, suc, ◌+◌, ◌≡◌, refl, sym, ap, ◌∙◌, String, Bool, true, false, Bool-cases, inl, inr, none, some,
  List, [], ◌∷◌, ◌++◌, arith, str_eq, eq_iff,
}
use mathlib.Core.List.{append_assoc, append-nil}
use surreal_dbservice.Base.Lists.{All, All-append}
use surreal_dbservice.Sql.Value.{
  Atoms, Value, Items, Entries, Part, Idiom, none_value, null_value, leaf_value, object_value,
  array_value, end_items, item, end_entries, entry, field_part, index_part, push, lookup, nth,
  or_none, pick_step, pick, every_from, every_item, every_entry, every,
}

module _ {A : Atoms} where
  -- neither an object nor an array
  abbrev pub is_leaf : Value A → Bool
  is_leaf (object_value es) = false
  is_leaf (array_value vs) = false
  is_leaf none_value = true
  is_leaf null_value = true
  is_leaf (leaf_value x) = true

  -- The keys of every object in a value differ, as those of a `BTreeMap` do.
  unfoldable mutual
    unfolding lookup

    pub KeysDiffer : Value A → Type 0
    KeysDiffer (object_value es) = KeysDifferEntries es
    KeysDiffer (array_value vs) = KeysDifferItems vs
    KeysDiffer none_value = Unit
    KeysDiffer null_value = Unit
    KeysDiffer (leaf_value x) = Unit

    pub KeysDifferItems : Items A → Type 0
    KeysDifferItems end_items = Unit
    KeysDifferItems (item v vs) = KeysDiffer v × KeysDifferItems vs

    pub KeysDifferEntries : Entries A → Type 0
    KeysDifferEntries end_entries = Unit
    KeysDifferEntries (entry k v es) = KeysDiffer v × (lookup k es ≡ none) × KeysDifferEntries es

  -- a path below `prev` leads to a leaf of `v`
  record Leads (v : Value A) (prev q : Idiom A) : Type 0 where
    below : Idiom A
    path : q ≡ prev ++ below
    leaf : is_leaf (pick below v) ≡ true

  Leads-behind :
      (v w : Value A) (p : Part A) (prev : Idiom A) (qs : List (Idiom A))
      → ((r : Idiom A) → pick (p ∷ r) v ≡ pick r w)
      → All (Leads w (push p prev)) qs
      → All (Leads v prev) qs
  Leads-behind v w p prev [] same h = tt
  Leads-behind v w p prev (q ∷ qs) same (x, h) = (
    record {
      below = p ∷ x.below;
      path = x.path ∙ append_assoc prev (p ∷ []) x.below;
      leaf = ap is_leaf (same x.below) ∙ x.leaf;
    },
    Leads-behind v w p prev qs same h,
  )

  here : (v : Value A) (prev : Idiom A) → is_leaf v ≡ true → All (Leads v prev) (prev ∷ [])
  unfolding pick
  here v prev e = (record { below = []; path = sym (append-nil prev); leaf = e }, tt)

  -- an entry behind another one is looked up past it
  past :
      (k f : String) (v w : Value A) (es : Entries A)
      → lookup k es ≡ none
      → lookup f es ≡ some w
      → lookup f (entry k v es) ≡ some w
  unfolding lookup
  past k f v w es fresh e = elim (Bool-cases (str_eq k f)) [
    | inl same ↦ ground (arith, eq_iff k f, fresh, e)
    | inr apart ↦ rw apart e
  ]

  first_entry : (k : String) (v : Value A) (es : Entries A) → lookup k (entry k v es) ≡ some v
  unfolding lookup
  first_entry k v es = ground (arith, eq_iff k k)

  index_lem :
      (vs : Items A) (j : ℕ) (r : Idiom A)
      → pick (index_part (0 + j) ∷ r) (array_value vs) ≡ or_none (pick r) (nth j vs)
  unfolding pick pick_step
  index_lem vs j r = let same : 0 + j ≡ j = omega arith in rw same refl

  field_lem :
      (es : Entries A) (f : String) (w : Value A)
      → lookup f es ≡ some w
      → (r : Idiom A) → pick (field_part f ∷ r) (object_value es) ≡ pick r w
  unfolding pick pick_step
  field_lem es f w e r = rw e refl

  module _ (v : Value A) (i : ℕ) (w : Value A) (ws : Items A)
      (step : (j : ℕ) (r : Idiom A)
        → pick (index_part (i + j) ∷ r) v ≡ or_none (pick r) (nth j (item w ws))) where
    head_lem : (r : Idiom A) → pick (index_part i ∷ r) v ≡ pick r w
    unfolding nth
    head_lem r = let same : i + 0 ≡ i = omega arith in rw same at (step 0 r)

    tail_lem :
        (j : ℕ) (r : Idiom A) → pick (index_part (suc i + j) ∷ r) v ≡ or_none (pick r) (nth j ws)
    unfolding nth
    tail_lem j r = let next : i + suc j ≡ suc i + j = omega arith in rw next at (step (suc j) r)

  mutual
    unfolding every_from KeysDiffer

    every_from-Leads :
        (prev : Idiom A) (v : Value A) → KeysDiffer v → All (Leads v prev) (every_from prev v)
    every_from-Leads prev none_value h = here none_value prev refl
    every_from-Leads prev null_value h = here null_value prev refl
    every_from-Leads prev (leaf_value x) h = here (leaf_value x) prev refl
    every_from-Leads prev (array_value vs) h =
        every_item-Leads (array_value vs) prev 0 vs (λ j r. index_lem vs j r) h
    every_from-Leads prev (object_value es) h =
        every_entry-Leads (object_value es) prev es (λ f w e r. field_lem es f w e r) h

    every_item-Leads :
        (v : Value A) (prev : Idiom A) (i : ℕ) (vs : Items A)
        → ((j : ℕ) (r : Idiom A) → pick (index_part (i + j) ∷ r) v ≡ or_none (pick r) (nth j vs))
        → KeysDifferItems vs
        → All (Leads v prev) (every_item prev i vs)
    every_item-Leads v prev i end_items step h = tt
    every_item-Leads v prev i (item w ws) step h =
        All-append (Leads v prev) (every_from (push (index_part i) prev) w)
          (every_item prev (suc i) ws)
          (Leads-behind v w (index_part i) prev (every_from (push (index_part i) prev) w)
            (head_lem v i w ws step) (every_from-Leads (push (index_part i) prev) w h.0))
          (every_item-Leads v prev (suc i) ws (tail_lem v i w ws step) h.1)

    every_entry-Leads :
        (v : Value A) (prev : Idiom A) (es : Entries A)
        → ((f : String) (w : Value A)
            → lookup f es ≡ some w
            → (r : Idiom A) → pick (field_part f ∷ r) v ≡ pick r w)
        → KeysDifferEntries es
        → All (Leads v prev) (every_entry prev es)
    every_entry-Leads v prev end_entries step h = tt
    every_entry-Leads v prev (entry k w es) step h =
        All-append (Leads v prev) (every_from (push (field_part k) prev) w) (every_entry prev es)
          (Leads-behind v w (field_part k) prev (every_from (push (field_part k) prev) w)
            (step k w (first_entry k w es)) (every_from-Leads (push (field_part k) prev) w h.0))
          (every_entry-Leads v prev es (λ f x e. step f x (past k f w x es h.1 e)) h.2)

  leaves_at :
      (v : Value A) (qs : List (Idiom A))
      → All (Leads v []) qs
      → All (λ q. is_leaf (pick q v) ≡ true) qs
  leaves_at v [] h = tt
  leaves_at v (q ∷ qs) (x, h) = (ap (λ p. is_leaf (pick p v)) x.path ∙ x.leaf, leaves_at v qs h)

  -- Each path that `every` lists leads `pick` to a leaf of the value, neither an object nor an array,
  -- where the keys of each object differ.
  pub every_leads : (v : Value A) → KeysDiffer v → All (λ q. is_leaf (pick q v) ≡ true) (every v)
  unfolding every
  every_leads v h = leaves_at v (every v) (every_from-Leads [] v h)
