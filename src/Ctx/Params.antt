-- ===== src/Ctx/Params.antt =====
-- Parameters of lib/src/ctx/context.rs: what `value` finds.
use surreal_dbservice.Base.{ℕ, String, ◌≡◌, refl, Option, none, some, arith, str_eq, if◌then◌else◌}
use surreal_dbservice.Base.Assoc.{Assoc, lookup, insert, lookup-insert}
use surreal_dbservice.Ctx.{
  Flags, Context, root, child, new, add_value, add_deadline, add_to, find, value,
}

module _ {V : Type 0} where
  find-add_to :
      (k j : String) (v : V) (o : Option (Assoc V))
      → find j (add_to k v o) ≡ (if str_eq k j then some v else find j o)
  unfolding lookup insert
  find-add_to k j v none = refl
  find-add_to k j v (some m) = lookup-insert k j v m

  -- A parameter that is set is found, over what the context or its parents held under the same
  -- name; every other parameter is found as before.
  pub value-add_value :
      (k j : String) (v : V) (c : Context V)
      → value (add_value k v c) j ≡ (if str_eq k j then some v else value c j)
  unfolding value add_value
  value-add_value k j v (root f) = find-add_to k j v f.values
  value-add_value k j v (child p f) = ground (arith, find-add_to k j v f.values)

  -- A new child finds under every name what its parent finds.
  pub value-new : (c : Context V) (fl : Flags) (k : String) → value (new c fl).0 k ≡ value c k
  unfolding value new
  value-new c fl k = refl

  pub value-add_deadline :
      (d : ℕ) (c : Context V) (k : String) → value (add_deadline d c) k ≡ value c k
  unfolding value add_deadline
  value-add_deadline d (root f) k = refl
  value-add_deadline d (child p f) k = refl
