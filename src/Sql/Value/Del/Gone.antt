-- ===== src/Sql/Value/Del/Gone.antt =====
-- lib/src/sql/value/del.rs against pick.rs.
use surreal_dbservice.Base.{
  ◌≡◌, refl, String, Bool, true, false, Bool-cases, inl, inr, Option, none, some, List, [], ◌∷◌,
  map, arith, str_eq, eq_iff,
}
use surreal_dbservice.Err.{Result, ok}
use surreal_dbservice.Sql.Value.{
  Atoms, Value, Entries, Idiom, none_value, null_value, leaf_value, object_value, array_value,
  end_entries, entry, field_part, lookup, pick, pick_step,
}
use surreal_dbservice.Sql.Value.Set.{Evaluator, Run, after, pure, insert}
use surreal_dbservice.Sql.Value.Set.Roundtrip.{lookup-insert}
use surreal_dbservice.Sql.Value.Del.{remove, del, del_last, del_step, del_in}

module _ {A : Atoms} (T : Evaluator A) where
  lookup-remove : (f : String) (es : Entries A) → lookup f (remove T f es) ≡ none
  unfolding lookup remove
  lookup-remove f end_entries = refl
  lookup-remove f (entry j w es) = elim (Bool-cases (str_eq j f)) [
    | inl same ↦ rw same (lookup-remove f es)
    | inr apart ↦ rw apart (rw apart (lookup-remove f es))
  ]

  abbrev pub fields : List String → Idiom A
  fields fs = map field_part fs

  abbrev pub unless_there : (Value A → Bool) → Option (Value A) → Bool
  unless_there test none = true
  unless_there test (some v) = test v

  -- No array stands on the way of the fields.
  unfoldable pub through : List String → Value A → Bool
  unfolding lookup
  through [] v = true
  through (f ∷ fs) (object_value es) = unless_there (through fs) (lookup f es)
  through (f ∷ fs) (array_value vs) = false
  through (f ∷ fs) none_value = true
  through (f ∷ fs) null_value = true
  through (f ∷ fs) (leaf_value x) = true

  -- How a deletion of what `path` reads ends.
  abbrev pub Deleted : Idiom A → T.State → Result (Value A) × T.State → Type 0
  Deleted path s r = (v' : Value A) × (r ≡ (ok v', s)) × (pick path v' ≡ none_value)

  module _ (rest : Value A → Run T (Value A)) (path : Idiom A) (f : String) (es : Entries A)
      (s : T.State) (blank : pick path none_value ≡ none_value)
      (null_blank : pick path null_value ≡ none_value) where
    inserted :
        (w : Value A)
        → Deleted path s (rest w s)
        → Deleted
            (field_part f ∷ path)
            s
            (after T (rest w s) (λ v. pure T (object_value (insert T f v es))))
    unfolding pick pick_step
    inserted w (w', gone, picked) = (
      object_value (insert T f w' es),
      rw gone refl,
      rw (lookup-insert T f f w' es) (ground (arith, eq_iff f f, picked)),
    )

    in_key :
        (o : Option (Value A))
        → lookup f es ≡ o
        → ((w : Value A) → o ≡ some w → Deleted path s (rest w s))
        → Deleted (field_part f ∷ path) s (del_in T rest f es o s)
    unfolding pick pick_step
    in_key none e ih = (object_value es, refl, rw e refl)
    in_key (some none_value) e ih = (object_value es, refl, rw e blank)
    in_key (some null_value) e ih = (object_value es, refl, rw e null_blank)
    in_key (some (leaf_value x)) e ih = inserted (leaf_value x) (ih (leaf_value x) refl)
    in_key (some (object_value ds)) e ih = inserted (object_value ds) (ih (object_value ds) refl)
    in_key (some (array_value vs)) e ih = inserted (array_value vs) (ih (array_value vs) refl)

  last-Deleted :
      (f : String) (v : Value A) (s : T.State)
      → through (f ∷ []) v ≡ true
      → Deleted (field_part f ∷ []) s (del T (field_part f ∷ []) v s)
  unfolding del del_last through pick pick_step
  last-Deleted f (object_value es) s e =
      (object_value (remove T f es), refl, rw (lookup-remove f es) refl)
  last-Deleted f (array_value vs) s e = cc
  last-Deleted f none_value s e = (none_value, refl, refl)
  last-Deleted f null_value s e = (null_value, refl, refl)
  last-Deleted f (leaf_value x) s e = (leaf_value x, refl, refl)

  step-eq :
      (f g : String) (fs : List String) (v : Value A) (s : T.State)
      → del T (fields (f ∷ g ∷ fs)) v s ≡ del_step T (del T (fields (g ∷ fs))) (field_part f) v s
  unfolding del
  step-eq f g fs v s = refl

  step-Deleted :
      (rest : Value A → Run T (Value A)) (path : Idiom A) (f : String) (fs : List String)
      (v : Value A) (s : T.State)
      → through (f ∷ fs) v ≡ true
      → pick path none_value ≡ none_value
      → pick path null_value ≡ none_value
      → ((w : Value A) → through fs w ≡ true → Deleted path s (rest w s))
      → Deleted (field_part f ∷ path) s (del_step T rest (field_part f) v s)
  unfolding del_step through pick pick_step
  step-Deleted rest path f fs (object_value es) s e b nb ih =
      in_key rest path f es s b nb (lookup f es) refl (λ w there. ih w (rw there at e))
  step-Deleted rest path f fs (array_value vs) s e b nb ih = cc
  step-Deleted rest path f fs none_value s e b nb ih = (none_value, refl, refl)
  step-Deleted rest path f fs null_value s e b nb ih = (null_value, refl, refl)
  step-Deleted rest path f fs (leaf_value x) s e b nb ih = (leaf_value x, refl, refl)

  blank-fields : (g : String) (fs : List String) → pick (fields (g ∷ fs)) none_value ≡ none_value
  unfolding pick pick_step
  blank-fields g fs = refl

  null-fields : (g : String) (fs : List String) → pick (fields (g ∷ fs)) null_value ≡ none_value
  unfolding pick pick_step
  null-fields g fs = refl

  -- What is deleted under a path of fields is gone: where no array stands on the way, `del` succeeds
  -- without a condition to evaluate, and `pick` then reads NONE.
  pub pick-del :
      (f : String) (fs : List String) (v : Value A) (s : T.State)
      → through (f ∷ fs) v ≡ true
      → (v' : Value A) × (del T (fields (f ∷ fs)) v s ≡ (ok v', s))
        × (pick (fields (f ∷ fs)) v' ≡ none_value)
  pick-del f [] v s e = last-Deleted f v s e
  pick-del f (g ∷ fs) v s e = rw (step-eq f g fs v s) (
      step-Deleted (del T (fields (g ∷ fs))) (fields (g ∷ fs)) f (g ∷ fs) v s e (blank-fields g fs)
        (null-fields g fs) (λ w h. pick-del g fs w s h))
