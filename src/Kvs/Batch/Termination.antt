-- ===== src/Kvs/Batch/Termination.antt =====
-- The loops of lib/src/kvs/tx.rs end on every store that returns no more pairs than it is asked for.
use surreal_dbservice.Base.{
  ℕ, zero, suc, ◌<◌, ◌≤◌, ◌≡◌, refl, Bool, true, false, min, Bool-cases, inl, inr, Option, none, [],
  ◌∷◌, arith, ◌==◌, ltb, if◌then◌else◌, if_false, subst, sym, Returns, returned,
}
use surreal_dbservice.Base.Lists.{length}
use surreal_dbservice.Err.{Result, ok, err, tx_finished}
use surreal_dbservice.Kvs.Engine.{Engine, Key, Reply, good, bad, lift}
use surreal_dbservice.Kvs.Mem
use surreal_dbservice.Kvs.Cache.{Catalog}
use surreal_dbservice.Kvs.Laws.{ScanBound}
use surreal_dbservice.Kvs.Order.{Pairs}
use surreal_dbservice.Kvs.Tx.{Transaction, core, scan}
use surreal_dbservice.Kvs.Batch.{start_of, delr_next, delr_round, delr_loop, delr, delp}

-- what a scan for `n` pairs returned
abbrev AtMost : ℕ → Result Pairs → Type 0
AtMost n (ok ps) = length ps ≤ n
AtMost n (err e) = Unit

lift-AtMost :
    (n : ℕ) (r : Reply Pairs) → ((ps : Pairs) → r ≡ good ps → length ps ≤ n) → AtMost n (lift r)
unfolding lift
lift-AtMost n (good ps) h = h ps refl
lift-AtMost n (bad e) h = tt

AtMost-le : (n m : ℕ) (r : Result Pairs) → n ≤ m → AtMost n r → AtMost m r
AtMost-le n m (ok ps) le h = omega arith
AtMost-le n m (err e) le h = tt

module _ {E : Engine} where
  reading-AtMost :
      (n : ℕ) (u v : Mem.Transaction E) (r : Result Pairs)
      → AtMost n r
      → AtMost n (Mem.reading u (r, v)).0
  reading-AtMost n u v r h = go u.finished
    where
      go :
          (b : Bool)
          → AtMost n (
              (if◌then◌else◌ {A = Result Pairs × Mem.Transaction E} b
                (err tx_finished, u)
                (r, v)).0)
      go true = tt
      go false = h

module _ {E : Engine} {C : Catalog} (B : ScanBound E) where
  scan-AtMost : (a b : Key) (n : ℕ) (t : Transaction E C) → AtMost n (scan a b n t).0
  unfolding scan Mem.scan
  scan-AtMost a b n t =
      let u = core t.inner in
      reading-AtMost n u _ _ (lift-AtMost n (E.scan a b n u.tx).0 (λ ps. B.at_most a b n u.tx ps))

  delr_next-Returns :
      (f : Transaction E C → Option (Result (Unit {0}) × Transaction E C))
      → (x : Result (Unit {0}) × Transaction E C) → ((t : Transaction E C) → Returns (f t))
      → Returns (delr_next f x)
  delr_next-Returns f (err e, t) k = returned _
  delr_next-Returns f (ok _, t) k = k t

  delr_round-Returns :
      (rest : Option Key → ℕ → Transaction E C → Option (Result (Unit {0}) × Transaction E C))
      (num : ℕ) (x : Result Pairs × Transaction E C)
      → ((nxt : Option Key) (n : ℕ) (t : Transaction E C) → suc n ≤ num → Returns (rest nxt n t))
      → 0 < num
      → AtMost num x.0
      → Returns (delr_round rest num x)
  unfolding delr_round
  delr_round-Returns rest num (err e, t) k pos le = returned _
  delr_round-Returns rest num (ok [], t) k pos le = returned _
  delr_round-Returns rest num (ok (p ∷ res), t) k pos le =
      subst Returns (sym (if_false (ltb num (length (p ∷ res))) _ _ (ground arith)))
        (delr_next-Returns _ _ (λ t'. k _ _ t' (omega arith)))

  delr_loop-Returns :
      (fuel : ℕ) (beg end : Key) (nxt : Option Key) (num : ℕ) (t : Transaction E C)
      → num < fuel
      → Returns (delr_loop fuel beg end nxt num t)
  unfolding delr_loop
  delr_loop-Returns zero beg end nxt num t h = elim h [ ]
  delr_loop-Returns (suc fuel) beg end nxt num t h = elim (Bool-cases (num == 0)) [
    | inl none_left ↦ rw none_left (returned _)
    | inr more ↦ rw more (
        delr_round-Returns (delr_loop fuel beg end) num _
          (λ nxt' n t' lt. delr_loop-Returns fuel beg end nxt' n t' (omega arith)) (ground arith)
          (AtMost-le (min 1000 num) num _ (omega arith)
            (scan-AtMost (start_of beg nxt) end (min 1000 num) t)))
  ]

  -- The batched deletion ends within its rounds, on every such store.
  pub delr-Returns :
      (beg end : Key) (limit : ℕ) (t : Transaction E C) → Returns (delr beg end limit t)
  unfolding delr
  delr-Returns beg end limit t = delr_loop-Returns (suc limit) beg end none limit t (omega arith)

  pub delp-Returns : (key : Key) (limit : ℕ) (t : Transaction E C) → Returns (delp key limit t)
  unfolding delp
  delp-Returns key limit t = delr-Returns key _ limit t
