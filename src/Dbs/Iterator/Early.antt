-- ===== src/Dbs/Iterator/Early.antt =====
-- The early exit of lib/src/dbs/iterator.rs under LIMIT.
use surreal_dbservice.Base.{
  ℕ, ◌<◌, ◌≡◌, ◌⊎◌, Option, none, some, List, [], ◌∷◌, ◌++◌, if◌then◌else◌,
}
use surreal_dbservice.Base.Lists.{length, take}
use surreal_dbservice.Err.{Result, ok, err, ignore}
use surreal_dbservice.Dbs.Iterator.{World, Clauses, Iterator}

module _ (W : World) where
  abbrev pub cons_to : W.V → Option (List W.V) → Option (List W.V)
  cons_to v none = none
  cons_to v (some vs) = some (v ∷ vs)

  abbrev pub collect_on : (W.State → Option (List W.V)) → Result W.V × W.State → Option (List W.V)
  collect_on rest (err ignore, s) = rest s
  collect_on rest (err e, s) = none
  collect_on rest (ok v, s) = cons_to v (rest s)

  -- The results of all records without an early exit; `none` if a record fails, or the time is up.
  unfoldable pub collect : List W.Doc → W.State → Option (List W.V)
  collect [] s = some []
  collect (doc ∷ docs) s =
      let rest = collect_on (collect docs) (W.compute doc s) in if W.done s then none else rest

  -- equal as far as the exit can tell
  abbrev Agree : Option ℕ → List W.V → List W.V → Type 0
  Agree none xs ys = xs ≡ ys
  Agree (some n) xs ys = take n xs ≡ take n ys

  -- the exit is still ahead, or is never reached
  abbrev Room : Option ℕ → List W.V → Type 0
  Room none r = Unit
  Room (some n) r = (n ≡ 0) ⊎ (length r < n)

  module _ (c : Clauses W.Idiom) where
    -- How the iteration ends: without an error, and with the results `ys` as far as the exit can tell.
    abbrev Ends : Option ℕ → Iterator W → List W.V → Type 0
    Ends n it ys = (it.error ≡ none) × Agree n it.results ys

    abbrev add_result : Iterator W → W.V → Iterator W
    add_result it v = record it { results = it.results ++ v ∷ [] }
