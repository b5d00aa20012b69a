-- ===== src/Sql/Array.antt =====
-- lib/src/sql/array.rs: the set operations on arrays. The equality of values, `PartialEq` of
-- lib/src/sql/value/value.rs, is a parameter.
pub mod Abolish
use surreal_dbservice.Base.{
  ℕ, zero, suc, Bool, true, false, ◌||◌, Option, none, some, List, [], ◌∷◌, ◌++◌, map,
  if◌then◌else◌,
}

module _ {V : Type 0} (eq : V → V → Bool) where
  -- `iter().any(|x| *x == v)`
  unfoldable pub contains : V → List V → Bool
  contains v [] = false
  contains v (x ∷ xs) = eq x v || contains v xs

  -- `Add<Value>`
  unfoldable pub add : List V → V → List V
  add xs v = if contains v xs then xs else xs ++ v ∷ []

  -- `Add`
  unfoldable pub add_all : List V → List V → List V
  add_all xs [] = xs
  add_all xs (v ∷ vs) = add_all (add xs v) vs

  -- `iter().position(|x| *x == v)`, then `remove`
  unfoldable pub sub : List V → V → List V
  sub [] v = []
  sub (x ∷ xs) v = let rest = sub xs v in if eq x v then xs else x ∷ rest

  -- `Sub`
  unfoldable pub sub_all : List V → List V → List V
  sub_all xs [] = xs
  sub_all xs (v ∷ vs) = sub_all (sub xs v) vs

  abbrev pub behind : V → Option (List V) → Option (List V)
  behind b none = none
  behind b (some rest) = some (b ∷ rest)

  -- `other.iter().position(|b| a == *b)`, then `other.remove`: `none` where there is no position
  unfoldable pub take_out : V → List V → Option (List V)
  take_out a [] = none
  take_out a (b ∷ bs) = let rest = take_out a bs in if eq a b then some bs else behind b rest

  -- one round of `difference`
  abbrev pub unmatched : (List V → List V → List V) → V → List V → List V → Option (List V) → List V
  unmatched rest a out other none = rest (out ++ a ∷ []) other
  unmatched rest a out other (some less) = rest out less

  -- The loops run over `self`; `out` and `other` are their variables.
  unfoldable pub difference_loop : List V → List V → List V → List V
  unfolding take_out
  difference_loop [] out other = out ++ other
  difference_loop (a ∷ xs) out other = unmatched (difference_loop xs) a out other (take_out a other)

  unfoldable pub difference : List V → List V → List V
  unfolding difference_loop
  difference xs other = difference_loop xs [] other

  abbrev pub matched : (List V → List V → List V) → V → List V → List V → Option (List V) → List V
  matched rest a out other none = rest out other
  matched rest a out other (some less) = rest (out ++ a ∷ []) less

  unfoldable pub intersect_loop : List V → List V → List V → List V
  unfolding take_out
  intersect_loop [] out other = out
  intersect_loop (a ∷ xs) out other = matched (intersect_loop xs) a out other (take_out a other)

  unfoldable pub intersect : List V → List V → List V
  unfolding intersect_loop
  intersect xs other = intersect_loop xs [] other

  -- the inner loop of `uniq`: every later item that equals `x` is removed
  unfoldable pub strike : V → List V → List V
  strike x [] = []
  strike x (y ∷ ys) = let rest = strike x ys in if eq x y then rest else y ∷ rest

  -- The outer loop runs from the last item to the first, so that the items behind `x` are done.
  unfoldable pub uniq : List V → List V
  unfolding strike
  uniq [] = []
  uniq (x ∷ xs) = x ∷ strike x (uniq xs)

  unfoldable pub union : List V → List V → List V
  unfolding uniq
  union xs other = uniq (xs ++ other)

-- `Combine`: every pair, as an array of two
unfoldable pub combine : {V : Type 0} → (V → V → V) → List V → List V → List V
combine pair [] other = []
combine pair (a ∷ xs) other = map (pair a) other ++ combine pair xs other

-- `Concat`
abbrev pub concat : {V : Type 0} → List V → List V → List V
concat xs other = xs ++ other
