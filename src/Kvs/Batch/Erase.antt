-- ===== src/Kvs/Batch/Erase.antt =====
-- The batched range deletion of lib/src/kvs/tx.rs.
use surreal_dbservice.Base.{
  ℕ, zero, suc, ◌-◌, ◌≤◌, ◌<◌, min, ◌≡◌, refl, ap, sym, subst, ◌∙◌, false, true, not, Option, none,
  some, [], ◌∷◌, ◌++◌, arith, Bool-cases, inl, inr, suc_not_zero, ltb, if_false,
}
use surreal_dbservice.Base.Lists.{length, take, drop, All}
use surreal_dbservice.Err.{Result, ok, err}
use surreal_dbservice.Kvs.Engine.{Engine, Key, Val, lift}
use surreal_dbservice.Kvs.Mem
use surreal_dbservice.Kvs.Cache.{Catalog, Cache, key_eq, key_eq_sound}
use surreal_dbservice.Kvs.Laws.{ScanLaws, without}
use surreal_dbservice.Kvs.Order.{
  Pairs, range, last_key, range-IsSorted, key_ltb, key_ltb_irrefl, key_ltb_asym, last_key_above,
  ltb-push_zero, IsSorted,
}
use surreal_dbservice.Kvs.Tx.{Transaction, Inner, mem, file, core, del}
use surreal_dbservice.Kvs.Batch.{
  start_of, after_del, del_each, delr_next, delr_round, delr_loop, delr,
}
use surreal_dbservice.Kvs.Batch.Exact.{
  take-take, IsOpen, contents, counted, scan-open, rest_of_range,
}

-- a list of pairs without the keys of another
unfoldable pub without_all : Pairs → Pairs → Pairs
without_all [] xs = xs
without_all (p ∷ ps) xs = without_all ps (without p.0 xs)

without_all-append :
    (ps qs xs : Pairs) → without_all (ps ++ qs) xs ≡ without_all qs (without_all ps xs)
unfolding without_all
without_all-append [] qs xs = refl
without_all-append (p ∷ ps) qs xs = without_all-append ps qs (without p.0 xs)

-- A key before a range is not in it.
range-without :
    (a b j : Key) (xs : Pairs) → key_ltb j a ≡ true → range a b (without j xs) ≡ range a b xs
unfolding range without
range-without a b j [] h = refl
range-without a b j ((k, v) ∷ xs) h = elim (Bool-cases (key_eq k j)) [
  | inl same ↦ rw same (ground (arith, subst_key k j same, range-without a b j xs h))
  | inr other ↦ rw other (ground (arith, range-without a b j xs h))
]
  where
    subst_key : (k j : Key) → key_eq k j ≡ true → key_ltb k a ≡ key_ltb j a
    subst_key k j e = ap (λ i. key_ltb i a) (key_eq_sound k j e)

-- The keys of a batch do not lie above its last key.
batch_below_last :
    (p : Key × Val) (m : ℕ) (xs : Pairs)
    → IsSorted (p ∷ xs)
    → All (λ (q : Key × Val). key_ltb (last_key p (take m xs)) q.0 ≡ false) (p ∷ take m xs)
unfolding last_key
batch_below_last p zero xs h = (key_ltb_irrefl p.0, tt)
batch_below_last p (suc m) [] h = (key_ltb_irrefl p.0, tt)
batch_below_last p (suc m) (q ∷ xs) h = (
  key_ltb_asym p.0 (last_key q (take m xs)) (last_key_above p.0 q m xs h.0),
  batch_below_last q m xs h.1,
)

-- Removing keys up to `k` does not change the range behind `k`.
range-without_all :
    (k b : Key) (ps xs : Pairs)
    → All (λ (q : Key × Val). key_ltb k q.0 ≡ false) ps
    → range (k ++ 0 ∷ []) b (without_all ps xs) ≡ range (k ++ 0 ∷ []) b xs
unfolding without_all
range-without_all k b [] xs h = refl
range-without_all k b (p ∷ ps) xs h =
    range-without_all k b ps (without p.0 xs) h.1
    ∙ range-without (k ++ 0 ∷ []) b p.0 xs (ltb-push_zero p.0 k ∙ ap not h.0)

module _ {E : Engine} (L : ScanLaws E) where
  del-eq :
      (u : Mem.Transaction E) (k : Key)
      → u.finished ≡ false
      → u.rw ≡ true
      → L.IsLive u.tx
      → Mem.del k u ≡ (ok tt, record u { tx = (E.del k u.tx).1 })
  unfolding Mem.del lift
  del-eq u k open_ writable live = ground (arith, L.del_good k u.tx live)

module _ {E : Engine} {C : Catalog} (L : ScanLaws E) where
  -- How a deletion of the pairs `ps` ends: it succeeds, and the transaction holds all but them.
  abbrev pub Erased : Transaction E C → Pairs → Result (Unit {0}) × Transaction E C → Type 0
  Erased t ps (r, t') = (r ≡ ok tt) × IsOpen L t' × (contents L t' ≡ without_all ps (contents L t))

  del_inner :
      (i : Inner E) (c : Cache C) (k : Key)
      → IsOpen {C = C} L (record { inner = i; cache = c })
      → let (r, t') = del {C = C} k (record { inner = i; cache = c }) in
        (r ≡ ok tt) × IsOpen L t' × (contents L t' ≡ without k (L.view (core i).tx))
  unfolding del
  del_inner (mem u) c k h = rw (del-eq L u k h.opened h.writable h.live) (
    refl,
    record { opened = h.opened; writable = h.writable; live = L.del_live k u.tx h.live },
    L.view-del k u.tx h.live,
  )
  del_inner (file u) c k h = rw (del-eq L u k h.opened h.writable h.live) (
    refl,
    record { opened = h.opened; writable = h.writable; live = L.del_live k u.tx h.live },
    L.view-del k u.tx h.live,
  )

  pub del-open :
      (k : Key) (t : Transaction E C)
      → IsOpen L t
      → let (r, t') = del k t in
        (r ≡ ok tt) × IsOpen L t' × (contents L t' ≡ without k (contents L t))
  del-open k t h = del_inner t.inner t.cache k h

  after_del-ok :
      (rest : Transaction E C → Result (Unit {0}) × Transaction E C)
      → (x : Result (Unit {0}) × Transaction E C) → x.0 ≡ ok tt
      → after_del rest x ≡ rest x.1
  after_del-ok rest (ok _, t) h = refl
  after_del-ok rest (err e, t) h = cc

  del_each-Erased : (ps : Pairs) (t : Transaction E C) → IsOpen L t → Erased t ps (del_each ps t)
  unfolding del_each without_all
  del_each-Erased [] t h = (refl, h, refl)
  del_each-Erased ((k, v) ∷ ps) t h =
      let (good_, open_, left) = del_inner t.inner t.cache k h in
      let (good', open', left') = del_each-Erased ps (del k t).1 open_ in
      subst (Erased t ((k, v) ∷ ps)) (sym (after_del-ok (del_each ps) (del k t) good_))
        (good', open', left' ∙ ap (without_all ps) left)

  -- The loop has ended within its rounds, and erased the pairs `ps`.
  abbrev pub Ends : Transaction E C → Pairs → Option (Result (Unit {0}) × Transaction E C) → Type 0
  Ends t ps none = ⊥
  Ends t ps (some end) = Erased t ps end

  -- A batch, then the rest of the loop.
  Ends-after :
      (t : Transaction E C) (batch rest all : Pairs)
      → (f : Transaction E C → Option (Result (Unit {0}) × Transaction E C)) → batch ++ rest ≡ all
      → (x : Result (Unit {0}) × Transaction E C) → Erased t batch x
      → Ends x.1 rest (f x.1)
      → Ends t all (delr_next f x)
  Ends-after t batch rest all f e (err y, t') h k = cc
  Ends-after t batch rest all f e (ok y, t') h k = go (f t') k
    where
      go : (o : Option (Result (Unit {0}) × Transaction E C)) → Ends t' rest o → Ends t all o
      go none k = k
      go (some (r, t2)) k = (
        k.0,
        k.1,
        k.2
            ∙ ap (without_all rest) h.2
            ∙ sym (without_all-append batch rest (contents L t))
            ∙ ap (λ ps. without_all ps (contents L t)) e,
      )

  left_of_range :
      (s end : Key) (t t' : Transaction E C) (p : Key × Val) (m : ℕ) (xs : Pairs)
      → range s end (contents L t) ≡ p ∷ xs
      → contents L t' ≡ without_all (p ∷ take m xs) (contents L t)
      → range (last_key p (take m xs) ++ 0 ∷ []) end (contents L t') ≡ drop m xs
  left_of_range s end t t' p m xs e left =
      let k = last_key p (take m xs) in
      let sorted = range-IsSorted s end (contents L t) (L.view_sorted (core t.inner).tx) in
      ap (range (k ++ 0 ∷ []) end) left
      ∙ range-without_all k end (p ∷ take m xs) (contents L t)
          (batch_below_last p m xs (rw e at sorted))
      ∙ rest_of_range L s end t p m xs e

  delr_round-Ends :
      (fuel : ℕ) (beg end s : Key) (m num : ℕ) (t : Transaction E C) (cur : Pairs)
      → ((nxt : Option Key) (num' : ℕ) (t' : Transaction E C)
          → IsOpen L t'
          → num' < fuel
          → Ends t'
              (take num' (range (start_of beg nxt) end (contents L t')))
              (delr_loop fuel beg end nxt num' t'))
      → IsOpen L t
      → 0 < m
      → m ≤ num
      → num ≤ fuel
      → range s end (contents L t) ≡ cur
      → Ends t (take num cur) (delr_round (delr_loop fuel beg end) num (ok (take m cur), t))
  unfolding delr_round
  delr_round-Ends fuel beg end s zero num t cur ih h pos le enough e = absurd (omega arith)
  delr_round-Ends fuel beg end s (suc m) zero t cur ih h pos le enough e = absurd (omega arith)
  delr_round-Ends fuel beg end s (suc m) (suc num) t [] ih h pos le enough e =
      unfold without_all in (refl, h, refl)
  delr_round-Ends fuel beg end s (suc m) (suc num) t (p ∷ xs) ih h pos le enough e =
      let batch : Pairs = p ∷ take m xs in
      let num' : ℕ = suc num - length batch in
      let k : Key = last_key p (take m xs) in
      let erased = del_each-Erased batch t h in
      subst (Ends t (take (suc num) (p ∷ xs)))
        (sym (if_false (ltb (suc num) (length batch)) _ _ (counted m num p xs (omega arith))))
        (Ends-after t batch (take num' (drop m xs)) (take (suc num) (p ∷ xs))
          (delr_loop fuel beg end (some k) num') (take-take (suc m) (suc num) (p ∷ xs) le)
          (del_each batch t) erased
          (subst
            (λ ys.
              Ends (del_each batch t).1 (take num' ys)
                (delr_loop fuel beg end (some k) num' (del_each batch t).1))
            (left_of_range s end t (del_each batch t).1 p m xs e erased.2)
            (ih (some k) num' (del_each batch t).1 erased.1 (omega arith))))

  delr_loop-Ends :
      (fuel : ℕ) (beg end : Key) (nxt : Option Key) (num : ℕ) (t : Transaction E C)
      → IsOpen L t
      → num < fuel
      → Ends t
          (take num (range (start_of beg nxt) end (contents L t)))
          (delr_loop fuel beg end nxt num t)
  unfolding delr_loop
  delr_loop-Ends zero beg end nxt num t h lt = absurd (omega arith)
  delr_loop-Ends (suc fuel) beg end nxt zero t h lt = unfold without_all in (refl, h, refl)
  delr_loop-Ends (suc fuel) beg end nxt (suc num) t h lt =
      rw (suc_not_zero num, scan-open L t (start_of beg nxt) end (min 1000 (suc num)) h)
        (delr_round-Ends fuel beg end (start_of beg nxt) (min 1000 (suc num)) (suc num) t
          (range (start_of beg nxt) end (contents L t))
          (λ nxt' num' t' h' lt'. delr_loop-Ends fuel beg end nxt' num' t' h' lt') h (omega arith)
          (omega arith) (omega arith) refl)

  -- On an open writable transaction the batched deletion ends within its rounds and succeeds; the
  -- transaction stays open, and has lost exactly the first `limit` pairs of the range.
  pub delr_exact :
      (beg end : Key) (limit : ℕ) (t : Transaction E C)
      → IsOpen L t
      → Ends t (take limit (range beg end (contents L t))) (delr beg end limit t)
  unfolding delr
  delr_exact beg end limit t h = delr_loop-Ends (suc limit) beg end none limit t h (omega arith)
