-- ===== src/Kvs/Laws.antt =====
-- What echodb documents of a live transaction, as hypotheses on the engine: it reads like a sorted
-- list of pairs, `scan` returns the first pairs of a range in key order, and `del` removes one key.
use surreal_dbservice.Base.{ℕ, ◌≤◌, false, ◌≡◌, [], ◌∷◌, if◌then◌else◌, Option, none, some}
use surreal_dbservice.Base.Lists.{length, take}
use surreal_dbservice.Kvs.Engine.{Engine, EngineError, good, bad, is_good, Key, Val}
use surreal_dbservice.Kvs.Cache.{key_eq}
use surreal_dbservice.Kvs.Order.{Pairs, range, IsSorted}

-- a list of pairs without one key
unfoldable pub without : Key → Pairs → Pairs
without k [] = []
without k ((j, v) ∷ xs) = let rest = without k xs in if key_eq j k then rest else (j, v) ∷ rest

-- the value under a key
unfoldable pub find : Key → Pairs → Option Val
find k [] = none
find k ((j, v) ∷ xs) = if key_eq j k then some v else find k xs

pub record ScanLaws (E : Engine) : Type 1 where
  -- neither committed nor cancelled, and writable
  pub IsLive : E.Tx → Type 0
  pub view : E.Tx → Pairs
  pub view_sorted : (x : E.Tx) → IsSorted (view x)
  pub scan_lem :
      (a b : Key) (n : ℕ) (x : E.Tx)
      → IsLive x
      → E.scan a b n x ≡ (good (take n (range a b (view x))), x)
  pub del_good : (k : Key) (x : E.Tx) → IsLive x → (E.del k x).0 ≡ good tt
  pub del_live : (k : Key) (x : E.Tx) → IsLive x → IsLive (E.del k x).1
  pub view-del : (k : Key) (x : E.Tx) → IsLive x → view (E.del k x).1 ≡ without k (view x)

-- `scan` returns no more pairs than it is asked for, on every transaction.
pub record ScanBound (E : Engine) : Type 1 where
  pub at_most :
      (a b : Key) (n : ℕ) (x : E.Tx) (ps : Pairs) → (E.scan a b n x).0 ≡ good ps → length ps ≤ n

-- What echodb documents of the end of a transaction: a cancellation, or a commit that failed, leaves
-- the store as it was.
pub record EndLaws (E : Engine) : Type 1 where
  pub cancel_keeps : (x : E.Tx) (db : E.Db) → (E.cancel x db).2 ≡ db
  pub failed_commit_keeps :
      (x : E.Tx) (db : E.Db) → is_good (E.commit x db).0 ≡ false → (E.commit x db).2 ≡ db

-- What echodb documents of single keys on a live transaction: `get` reads, `set` writes one key, and
-- `put`, and `putc` with no value to expect, write a key that is not there. Such a `putc` refuses a key
-- that is there, and `delc` removes a key that has the expected value.
pub record PointLaws (E : Engine) (L : ScanLaws E) : Type 1 where
  pub get_lem : (k : Key) (x : E.Tx) → L.IsLive x → E.get k x ≡ (good (find k (L.view x)), x)
  pub set_good : (k : Key) (v : Val) (x : E.Tx) → L.IsLive x → (E.set k v x).0 ≡ good tt
  pub set_live : (k : Key) (v : Val) (x : E.Tx) → L.IsLive x → L.IsLive (E.set k v x).1
  pub find-set :
      (k : Key) (v : Val) (j : Key) (x : E.Tx)
      → L.IsLive x
      → find j (L.view (E.set k v x).1) ≡ (if key_eq k j then some v else find j (L.view x))
  pub put_lem :
      (k : Key) (v : Val) (x : E.Tx)
      → L.IsLive x
      → find k (L.view x) ≡ none
      → E.put k v x ≡ E.set k v x
  pub putc_lem :
      (k : Key) (v : Val) (x : E.Tx)
      → L.IsLive x
      → find k (L.view x) ≡ none
      → E.putc k v none x ≡ E.set k v x
  pub putc_held :
      (k : Key) (v w : Val) (x : E.Tx)
      → L.IsLive x
      → find k (L.view x) ≡ some w
      → (e : EngineError) × (E.putc k v none x ≡ (bad e, x))
  pub delc_lem :
      (k : Key) (v : Val) (x : E.Tx)
      → L.IsLive x
      → find k (L.view x) ≡ some v
      → E.delc k (some v) x ≡ E.del k x
