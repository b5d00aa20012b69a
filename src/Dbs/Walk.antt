-- ===== src/Dbs/Walk.antt =====
-- lib/src/dbs/iterate.rs and lib/src/dbs/channel.rs: the loop over a range of keys, in batches.
pub mod Exact
use surreal_dbservice.Base.{
  ℕ, zero, suc, Bool, Option, none, some, List, [], ◌∷◌, ◌++◌, if◌then◌else◌,
}
use surreal_dbservice.Err.{Result, ok, err}
use surreal_dbservice.Kvs.Engine.{Engine, Key, Val}
use surreal_dbservice.Kvs.Cache.{Catalog}
use surreal_dbservice.Kvs.Order.{Pairs}
use surreal_dbservice.Kvs.Tx.{Transaction, scan}
use surreal_dbservice.Kvs.Batch.{start_of}

-- What a transaction `T` and a state `S` are taken through; `none` is a panic or the end of the rounds.
abbrev pub Ended : Type 0 → Type 0 → Type 0 → Type 0
Ended T S A = Option (Result A × T × S)

abbrev pub Walk : Type 0 → Type 0 → Type 0 → Type 0
Walk T S A = T → S → Ended T S A

module _ {T S : Type 0} where
  -- the `?` on a call
  abbrev pub after_walk : {A B : Type 0} → Ended T S A → (A → Walk T S B) → Ended T S B
  after_walk none f = none
  after_walk (some (err e, t, s)) f = some (err e, t, s)
  after_walk (some (ok v, t, s)) f = f v t s

  -- a call of the transaction
  abbrev pub calling : {A : Type 0} → Result A × T → S → Ended T S A
  calling (r, t) s = some (r, t, s)

  abbrev pub outcome : {A : Type 0} → Option (Result A × T) → S → Ended T S A
  outcome none s = none
  outcome (some (r, t)) s = some (r, t, s)

  abbrev pub with_some : {A B : Type 0} → Option A → (A → Walk T S B) → Walk T S B
  with_some none f t s = none
  with_some (some v) f t s = f v t s

-- `is_done` asks the context, `visit` is the body of the loop over a batch.
module _ {E : Engine} {C : Catalog} {S : Type 0} (is_done : S → Bool)
    (visit : Key → Val → Walk (Transaction E C) S (Unit {0})) where
  -- the next holder key, which is set with the last pair of a batch
  abbrev pub ready : Key → Pairs → Option Key → Option Key
  ready k [] nxt = some k
  ready k (q ∷ ps) nxt = nxt

  -- the pairs of a batch, until the context is finished
  unfoldable pub each : Option Key → Pairs → Walk (Transaction E C) S (Option Key)
  each nxt [] t s = some (ok nxt, t, s)
  each nxt ((k, v) ∷ ps) t s =
      if is_done s
      then some (ok nxt, t, s)
      else after_walk (visit k v t s) (λ _. each (ready k ps nxt) ps)

  -- `beg.push(0x00)` changes the holder itself
  abbrev pub pushed : Option Key → Option Key
  pushed none = none
  pushed (some k) = some (k ++ 0 ∷ [])

  abbrev pub on_batch :
      (Option Key → Walk (Transaction E C) S (Unit {0}))
      → Option Key
      → Pairs
      → Walk (Transaction E C) S (Unit {0})
  on_batch rest nxt [] t s = some (ok tt, t, s)
  on_batch rest nxt (p ∷ res) t s = after_walk (each (pushed nxt) (p ∷ res) t s) rest

  -- The loop over a range, in batches of 1000 pairs; `none` behind the given number of rounds.
  unfoldable pub walk_range : ℕ → Key → Key → Option Key → Walk (Transaction E C) S (Unit {0})
  unfolding each
  walk_range zero beg end nxt t s = none
  walk_range (suc fuel) beg end nxt t s =
      if is_done s
      then some (ok tt, t, s)
      else after_walk (calling (scan (start_of beg nxt) end 1000 t) s)
          (on_batch (walk_range fuel beg end) nxt)

  unfoldable pub walk_ranges : ℕ → List (Key × Key) → Walk (Transaction E C) S (Unit {0})
  unfolding walk_range
  walk_ranges fuel [] t s = some (ok tt, t, s)
  walk_ranges fuel ((beg, end) ∷ keys) t s =
      after_walk (walk_range fuel beg end none t s) (λ _. walk_ranges fuel keys)
