-- ===== src/Kvs/Batch.antt =====
-- The range functions of lib/src/kvs/tx.rs, which fetch a range in batches of 1000.
-- `while num > 0` runs on fuel: `limit + 1` rounds are given, one for each pair and one to find the
-- end. `num` is a u32 that falls by one for each pair, `num -= 1`. A store that answers with more
-- pairs than are left to count takes it below 0, which is an overflow, a panic where overflow is
-- checked. `none` means that, or that the rounds ran out.
pub mod Exact
pub mod Erase
pub mod Prefix
pub mod Termination
use surreal_dbservice.Base.{
  ℕ, zero, suc, ◌+◌, ◌-◌, min, Option, none, some, List, [], ◌∷◌, ◌++◌, ◌==◌, ltb, if◌then◌else◌,
}
use surreal_dbservice.Base.Lists.{length, take}
use surreal_dbservice.Err.{Result, ok, err}
use surreal_dbservice.Kvs.Engine.{Engine, Key, Val}
use surreal_dbservice.Kvs.Cache.{Catalog}
use surreal_dbservice.Kvs.Order.{Pairs, last_key}
use surreal_dbservice.Kvs.Tx.{Transaction, scan, del}

-- the start of the next batch: `nxt` with a zero byte pushed, or the start of the range
abbrev pub start_of : Key → Option Key → Key
start_of beg none = beg
start_of beg (some k) = k ++ 0 ∷ []

module _ {E : Engine} {C : Catalog} where
  -- one round of `getr` behind its scan; `rest` is the rest of the loop
  unfoldable pub getr_round :
      (Option Key → ℕ → Pairs → Transaction E C → Option (Result Pairs × Transaction E C))
      → ℕ
      → Pairs
      → Result Pairs × Transaction E C
      → Option (Result Pairs × Transaction E C)
  getr_round rest num out (err e, t) = some (err e, t)
  getr_round rest num out (ok [], t) = some (ok out, t)
  getr_round rest num out (ok (p ∷ res), t) =
      if ltb num (length (p ∷ res))
      then none
      else rest (some (last_key p res)) (num - length (p ∷ res)) (out ++ p ∷ res) t

  unfoldable pub getr_loop :
      ℕ
      → Key
      → Key
      → Option Key
      → ℕ
      → Pairs
      → Transaction E C
      → Option (Result Pairs × Transaction E C)
  unfolding getr_round
  getr_loop zero beg end nxt num out t = none
  getr_loop (suc fuel) beg end nxt num out t =
      if num == 0
      then some (ok out, t)
      else getr_round (getr_loop fuel beg end) num out
          (scan (start_of beg nxt) end (min 1000 num) t)

  unfoldable pub getr : Key → Key → ℕ → Transaction E C → Option (Result Pairs × Transaction E C)
  unfolding getr_loop
  getr beg end limit t = getr_loop (suc limit) beg end none limit [] t

  -- the `?` on a deletion
  abbrev pub after_del :
      (Transaction E C → Result (Unit {0}) × Transaction E C)
      → Result (Unit {0}) × Transaction E C
      → Result (Unit {0}) × Transaction E C
  after_del rest (err e, t) = (err e, t)
  after_del rest (ok _, t) = rest t

  -- the deletions of one batch
  unfoldable pub del_each : Pairs → Transaction E C → Result (Unit {0}) × Transaction E C
  del_each [] t = (ok tt, t)
  del_each ((k, v) ∷ res) t = after_del (del_each res) (del k t)

  abbrev pub delr_next :
      (Transaction E C → Option (Result (Unit {0}) × Transaction E C))
      → Result (Unit {0}) × Transaction E C
      → Option (Result (Unit {0}) × Transaction E C)
  delr_next rest (err e, t) = some (err e, t)
  delr_next rest (ok _, t) = rest t

  -- a batch with more pairs than are left to count: a deletion can fail before the overflow
  abbrev pub overflowing :
      Result (Unit {0}) × Transaction E C → Option (Result (Unit {0}) × Transaction E C)
  overflowing (err e, t) = some (err e, t)
  overflowing (ok _, t) = none

  unfoldable pub delr_round :
      (Option Key → ℕ → Transaction E C → Option (Result (Unit {0}) × Transaction E C))
      → ℕ
      → Result Pairs × Transaction E C
      → Option (Result (Unit {0}) × Transaction E C)
  unfolding del_each
  delr_round rest num (err e, t) = some (err e, t)
  delr_round rest num (ok [], t) = some (ok tt, t)
  delr_round rest num (ok (p ∷ res), t) =
      if ltb num (length (p ∷ res))
      then overflowing (del_each (take (suc num) (p ∷ res)) t)
      else delr_next (rest (some (last_key p res)) (num - length (p ∷ res))) (del_each (p ∷ res) t)

  unfoldable pub delr_loop :
      ℕ
      → Key
      → Key
      → Option Key
      → ℕ
      → Transaction E C
      → Option (Result (Unit {0}) × Transaction E C)
  unfolding delr_round
  delr_loop zero beg end nxt num t = none
  delr_loop (suc fuel) beg end nxt num t =
      if num == 0
      then some (ok tt, t)
      else delr_round (delr_loop fuel beg end) num (scan (start_of beg nxt) end (min 1000 num) t)

  unfoldable pub delr :
      Key → Key → ℕ → Transaction E C → Option (Result (Unit {0}) × Transaction E C)
  unfolding delr_loop
  delr beg end limit t = delr_loop (suc limit) beg end none limit t

  -- `getp` and `delp`: the same loops, from the prefix to the prefix with a byte 0xff behind it
  unfoldable pub getp : Key → ℕ → Transaction E C → Option (Result Pairs × Transaction E C)
  unfolding getr
  getp key limit t = getr key (key ++ 0xff ∷ []) limit t

  unfoldable pub delp : Key → ℕ → Transaction E C → Option (Result (Unit {0}) × Transaction E C)
  unfolding delr
  delp key limit t = delr key (key ++ 0xff ∷ []) limit t
