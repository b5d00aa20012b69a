-- ===== src/Kvs/Gone.antt =====
-- Which keys the deletions of lib/src/kvs/tx.rs take from an open transaction.
use surreal_dbservice.Base.{
  ℕ, ◌≡◌, ◌≤◌, ap, Bool, not, ◌&&◌, ◌||◌, none, some, [], ◌∷◌, ◌++◌, arith, if◌then◌else◌,
}
use surreal_dbservice.Base.Lists.{length, take}
use surreal_dbservice.Err.{ok}
use surreal_dbservice.Kvs.Engine.{Engine, Key}
use surreal_dbservice.Kvs.Cache.{Catalog, key_eq}
use surreal_dbservice.Kvs.Laws.{ScanLaws, find, without}
use surreal_dbservice.Kvs.Find.{find-without, find-without_range, take_all, length-range-le}
use surreal_dbservice.Kvs.Order.{Pairs, key_ltb, range}
use surreal_dbservice.Kvs.Tx.{Transaction, del}
use surreal_dbservice.Kvs.Batch.{delr, delp}
use surreal_dbservice.Kvs.Batch.Exact.{IsOpen, contents}
use surreal_dbservice.Kvs.Batch.Erase.{Ends, del-open, delr_exact, without_all}
use surreal_dbservice.Kvs.Batch.Prefix.{extends, extends-eq}
use surreal_dbservice.Kvs.Definitions.{Outcome}

length-without-le : (k : Key) (xs : Pairs) → length (without k xs) ≤ length xs
unfolding without
length-without-le k [] = omega arith
length-without-le k ((j, v) ∷ xs) = ground (arith, length-without-le k xs)

length-without_all-le : (ps xs : Pairs) → length (without_all ps xs) ≤ length xs
unfolding without_all
length-without_all-le [] xs = omega arith
length-without_all-le (p ∷ ps) xs =
    omega (arith, length-without_all-le ps (without p.0 xs), length-without-le p.0 xs)

-- the keys of a range
abbrev pub inside : Key → Key → Key → Bool
inside a b j = not (key_ltb j a) && key_ltb j b

module _ {E : Engine} {C : Catalog} (L : ScanLaws E) where
  -- From one transaction to another the keys of the test are gone, and nothing else has changed.
  pub record Gone (t : Transaction E C) (test : Key → Bool) (t' : Transaction E C) : Type 0 where
    pub open_ : IsOpen L t'
    pub shorter : length (contents L t') ≤ length (contents L t)
    pub found :
        (j : Key) → find j (contents L t') ≡ (if test j then none else find j (contents L t))

  pub Gone-both :
      {t t1 t2 : Transaction E C} (f g : Key → Bool)
      → Gone t f t1
      → Gone t1 g t2
      → Gone t (λ j. f j || g j) t2
  Gone-both f g h k = record {
    open_ = k.open_;
    shorter = omega (arith, h.shorter, k.shorter);
    found = λ j. ground (arith, h.found j, k.found j);
  }

  pub del-Gone :
      (k : Key) (t : Transaction E C)
      → IsOpen L t
      → (t' : Transaction E C) × (del k t ≡ (ok tt, t')) × Gone t (key_eq k) t'
  del-Gone k t h =
      let (good_, open_, left) = del-open L k t h in
      (
        (del k t).1,
        ap (λ r. (r, (del k t).1)) good_,
        record {
          open_ = open_;
          shorter = rw left (length-without-le k (contents L t));
          found = λ j. rw left (find-without k j (contents L t));
        },
      )

  Ends-Gone :
      (a b : Key) (t : Transaction E C)
      → (o : Outcome E C (Unit {0})) → Ends L t (range a b (contents L t)) o
      → (t' : Transaction E C) × (o ≡ some (ok tt, t')) × Gone t (inside a b) t'
  Ends-Gone a b t none h = absurd h
  Ends-Gone a b t (some (r, t')) (good_, open_, left) = (
    t',
    ap (λ x. some (x, t')) good_,
    record {
      open_ = open_;
      shorter = rw left (length-without_all-le (range a b (contents L t)) (contents L t));
      found = λ j. rw left (find-without_range a b j (contents L t));
    },
  )

  pub delr-Gone :
      (a b : Key) (n : ℕ) (t : Transaction E C)
      → IsOpen L t
      → length (contents L t) ≤ n
      → (t' : Transaction E C) × (delr a b n t ≡ some (ok tt, t')) × Gone t (inside a b) t'
  delr-Gone a b n t h le =
      let all : take n (range a b (contents L t)) ≡ range a b (contents L t) =
        take_all n _ (omega (arith, length-range-le a b (contents L t))) in
      Ends-Gone a b t (delr a b n t) (rw all at (delr_exact L a b n t h))

  pub delp-Gone :
      (key : Key) (n : ℕ) (t : Transaction E C)
      → IsOpen L t
      → length (contents L t) ≤ n
      → (t' : Transaction E C) × (delp key n t ≡ some (ok tt, t')) × Gone t (extends key) t'
  unfolding delp
  delp-Gone key n t h le =
      let (t', e, g) = delr-Gone key (key ++ 0xff ∷ []) n t h le in
      (
        t',
        e,
        record {
          open_ = g.open_;
          shorter = g.shorter;
          found = λ j. rw (← extends-eq key j) (g.found j);
        },
      )
