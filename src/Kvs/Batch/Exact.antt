-- ===== src/Kvs/Batch/Exact.antt =====
-- The batched range read of lib/src/kvs/tx.rs against one unbatched read.
use surreal_dbservice.Base.{
  ℕ, zero, suc, ◌-◌, ◌≤◌, ◌<◌, min, ◌≡◌, refl, ap, ◌∙◌, false, true, Option, none, some, List, [],
  ◌∷◌, ◌++◌, arith, suc_not_zero, ltb, if_false,
}
use mathlib.Core.List.{append_assoc, append-nil}
use surreal_dbservice.Base.Lists.{length, take, drop, length-take}
use surreal_dbservice.Err.{ok}
use surreal_dbservice.Kvs.Engine.{Engine, Key, Val}
use surreal_dbservice.Kvs.Mem
use surreal_dbservice.Kvs.Cache.{Catalog, Cache}
use surreal_dbservice.Kvs.Laws.{ScanLaws}
use surreal_dbservice.Kvs.Order.{
  Pairs, range, last_key, range-push_zero, above-last_key, last_key_in_range, range_bound,
  range-IsSorted, above,
}
use surreal_dbservice.Kvs.Tx.{Transaction, Inner, mem, file, core, scan}
use surreal_dbservice.Kvs.Batch.{start_of, getr_round, getr_loop, getr}

-- A batch and the rest of the budget make up the whole.
pub take-take {ℓ} :
    {A : Type ℓ} (m n : ℕ) (xs : List A)
    → m ≤ n
    → take m xs ++ take (n - length (take m xs)) (drop m xs) ≡ take n xs
take-take zero n xs h = ap (λ k. take k xs) (omega arith)
take-take (suc m) zero xs h = absurd (omega arith)
take-take (suc m) (suc n) [] h = ground arith
take-take (suc m) (suc n) (x ∷ xs) h = ground (arith, take-take m n xs)

-- An open transaction on a live one of the engine.
pub record IsOpen {E : Engine} {C : Catalog} (L : ScanLaws E) (t : Transaction E C) : Type 0 where
  pub opened : (core t.inner).finished ≡ false
  pub writable : (core t.inner).rw ≡ true
  pub live : L.IsLive (core t.inner).tx

-- A batch of at most `num` pairs can be counted.
pub counted :
    (m num : ℕ) (p : Key × Val) (xs : Pairs)
    → m ≤ num
    → ltb (suc num) (length (p ∷ take m xs)) ≡ false
counted m num p xs le = rw (length-take m xs) (ground arith)

module _ {E : Engine} {C : Catalog} (L : ScanLaws E) where
  -- what the transaction holds
  abbrev pub contents : Transaction E C → Pairs
  contents t = L.view (core t.inner).tx

  scan_inner :
      (i : Inner E) (c : Cache C) (a b : Key) (n : ℕ)
      → IsOpen {C = C} L (record { inner = i; cache = c })
      → scan {C = C} a b n (record { inner = i; cache = c })
        ≡ (ok (take n (range a b (L.view (core i).tx))), record { inner = i; cache = c })
  unfolding scan Mem.scan
  scan_inner (mem u) c a b n h = rw (h.opened, L.scan_lem a b n u.tx h.live) refl
  scan_inner (file u) c a b n h = rw (h.opened, L.scan_lem a b n u.tx h.live) refl

  pub scan-open :
      (t : Transaction E C) (a b : Key) (n : ℕ)
      → IsOpen L t
      → scan a b n t ≡ (ok (take n (range a b (contents t))), t)
  scan-open t a b n h = scan_inner t.inner t.cache a b n h

  -- What the loop returns from a state: the pairs so far, and the first `num` of those that are left.
  abbrev Reads : ℕ → Key → Key → Option Key → ℕ → Pairs → Transaction E C → Type 0
  Reads fuel beg end nxt num out t =
      getr_loop fuel beg end nxt num out t
      ≡ some (ok (out ++ take num (range (start_of beg nxt) end (contents t))), t)

  -- what is left of the range behind a batch
  pub rest_of_range :
      (s end : Key) (t : Transaction E C) (p : Key × Val) (m : ℕ) (xs : Pairs)
      → range s end (contents t) ≡ p ∷ xs
      → range (last_key p (take m xs) ++ 0 ∷ []) end (contents t) ≡ drop m xs
  rest_of_range s end t p m xs e =
      let sorted = range-IsSorted s end (contents t) (L.view_sorted (core t.inner).tx) in
      let k = last_key p (take m xs) in
      range-push_zero s end k (contents t)
        (last_key_in_range s p m xs (rw e at (range_bound s end (contents t))))
      ∙ ap (above k) e
      ∙ above-last_key p m xs (rw e at sorted)

  round_exact :
      (fuel : ℕ) (beg end s : Key) (m num : ℕ) (out : Pairs) (t : Transaction E C) (cur : Pairs)
      → ((nxt : Option Key) (num' : ℕ) (out' : Pairs)
          → num' < fuel
          → Reads fuel beg end nxt num' out' t)
      → 0 < m
      → m ≤ num
      → num ≤ fuel
      → range s end (contents t) ≡ cur
      → getr_round (getr_loop fuel beg end) num out (ok (take m cur), t)
        ≡ some (ok (out ++ take num cur), t)
  unfolding getr_round
  round_exact fuel beg end s zero num out t cur ih pos le enough e = absurd (omega arith)
  round_exact fuel beg end s (suc m) zero out t cur ih pos le enough e = absurd (omega arith)
  round_exact fuel beg end s (suc m) (suc num) out t [] ih pos le enough e = rw append-nil
  round_exact fuel beg end s (suc m) (suc num) out t (p ∷ xs) ih pos le enough e =
      if_false (ltb (suc num) (length (p ∷ take m xs))) _ _ (counted m num p xs (omega arith))
      ∙ ih (some (last_key p (take m xs))) (suc num - length (p ∷ take m xs)) (out ++ p ∷ take m xs)
          (omega arith)
      ∙ ap (λ ys. some (ok ys, t))
          (rw (rest_of_range s end t p m xs e) (
            append_assoc out (p ∷ take m xs) _
            ∙ ap (λ ys. out ++ ys) (take-take (suc m) (suc num) (p ∷ xs) le)))

  getr_loop-exact :
      (fuel : ℕ) (beg end : Key) (nxt : Option Key) (num : ℕ) (out : Pairs) (t : Transaction E C)
      → IsOpen L t
      → num < fuel
      → Reads fuel beg end nxt num out t
  unfolding getr_loop
  getr_loop-exact zero beg end nxt num out t h lt = absurd (omega arith)
  getr_loop-exact (suc fuel) beg end nxt zero out t h lt = rw append-nil
  getr_loop-exact (suc fuel) beg end nxt (suc num) out t h lt =
      rw (suc_not_zero num, scan-open t (start_of beg nxt) end (min 1000 (suc num)) h)
        (round_exact fuel beg end (start_of beg nxt) (min 1000 (suc num)) (suc num) out t
          (range (start_of beg nxt) end (contents t))
          (λ nxt' num' out' lt'. getr_loop-exact fuel beg end nxt' num' out' t h lt') (omega arith)
          (omega arith) (omega arith) refl)

  -- On an open transaction the batched read ends within its rounds, and returns the first `limit`
  -- pairs of the range in key order, none skipped at a boundary of two batches and none twice; the
  -- transaction is left as it was.
  pub getr_exact :
      (beg end : Key) (limit : ℕ) (t : Transaction E C)
      → IsOpen L t
      → getr beg end limit t ≡ some (ok (take limit (range beg end (contents t))), t)
  unfolding getr
  getr_exact beg end limit t h = getr_loop-exact (suc limit) beg end none limit [] t h (omega arith)
