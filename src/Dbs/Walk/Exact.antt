-- ===== src/Dbs/Walk/Exact.antt =====
-- lib/src/dbs/iterate.rs against a plain pass over the pairs of a range.
use surreal_dbservice.Base.{
  ℕ, zero, suc, ◌<◌, ◌≡◌, refl, sym, ap, ◌∙◌, Bool, false, Option, none, some, List, [], ◌∷◌, ◌++◌,
  arith,
}
use surreal_dbservice.Base.Lists.{
  length, take, drop, length-drop, take-drop, All, All-take, All-drop, All-split,
}
use surreal_dbservice.Err.{ok, err}
use surreal_dbservice.Kvs.Engine.{Engine, Key, Val}
use surreal_dbservice.Kvs.Laws.{ScanLaws}
use surreal_dbservice.Kvs.Order.{Pairs, range, last_key}
use surreal_dbservice.Kvs.Find.{length-range-le}
use surreal_dbservice.Kvs.Tx.{Transaction}
use surreal_dbservice.Kvs.Batch.{start_of}
use surreal_dbservice.Kvs.Batch.Exact.{IsOpen, contents, scan-open, rest_of_range}
use surreal_dbservice.Kvs.Cache.{Catalog}
use surreal_dbservice.Dbs.Walk.{
  Walk, Ended, after_walk, each, on_batch, pushed, walk_range, walk_ranges,
}

-- the pairs of several ranges
unfoldable pub pairs_of : List (Key × Key) → Pairs → Pairs
pairs_of [] xs = []
pairs_of ((beg, end) ∷ keys) xs = range beg end xs ++ pairs_of keys xs

module _ {T S : Type 0} where
  after_walk_assoc :
      {A B C : Type 0} (o : Ended T S A) (f : A → Walk T S B) (g : B → Walk T S C)
      → after_walk (after_walk o f) g ≡ after_walk o (λ v t s. after_walk (f v t s) g)
  after_walk_assoc none f g = refl
  after_walk_assoc (some (err e, t, s)) f g = refl
  after_walk_assoc (some (ok v, t, s)) f g = refl

  after_walk_cong :
      {A B : Type 0} (o : Ended T S A) {f g : A → Walk T S B}
      → ((v : A) (t : T) (s : S) → f v t s ≡ g v t s)
      → after_walk o f ≡ after_walk o g
  after_walk_cong none h = refl
  after_walk_cong (some (err e, t, s)) h = refl
  after_walk_cong (some (ok v, t, s)) h = h v t s

module _ {T S : Type 0} (visit : Key → Val → Walk T S (Unit {0})) where
  -- one pair after another
  unfoldable pub visit_all : Pairs → Walk T S (Unit {0})
  visit_all [] t s = some (ok tt, t, s)
  visit_all ((k, v) ∷ ps) t s = after_walk (visit k v t s) (λ _. visit_all ps)

module _ {E : Engine} {C : Catalog} {S : Type 0} (L : ScanLaws E) where
  -- A visit that succeeds, and leaves an open transaction with the same pairs.
  pub record Visited (t : Transaction E C) (o : Ended (Transaction E C) S (Unit {0})) : Type 0 where
    pub after : Transaction E C
    pub state : S
    pub ended : o ≡ some (ok tt, after, state)
    pub open_ : IsOpen L after
    pub same : contents L after ≡ contents L t

module _ {E : Engine} {C : Catalog} {S : Type 0} (is_done : S → Bool) (L : ScanLaws E)
    (visit : Key → Val → Walk (Transaction E C) S (Unit {0})) where
  module _ (runs : (s : S) → is_done s ≡ false) (IsMeant : Key × Val → Type 0)
      (reads : (p : Key × Val) (t : Transaction E C) (s : S)
        → IsMeant p
        → IsOpen L t
        → Visited L t (visit p.0 p.1 t s)) where
    visit_all-Visited :
        (ps : Pairs) (t : Transaction E C) (s : S)
        → All IsMeant ps
        → IsOpen L t
        → Visited L t (visit_all visit ps t s)
    unfolding visit_all
    visit_all-Visited [] t s m h = record {
      after = t;
      state = s;
      ended = refl;
      open_ = h;
      same = refl;
    }
    visit_all-Visited (p ∷ ps) t s m h =
        let x = reads p t s m.0 h in
        let y = visit_all-Visited ps x.after x.state m.1 x.open_ in
        record {
          after = y.after;
          state = y.state;
          ended = rw x.ended y.ended;
          open_ = y.open_;
          same = y.same ∙ x.same;
        }

    -- a batch that is not stopped visits its pairs, and ends with its last key
    each-eq :
        (nxt : Option Key) (p : Key × Val) (ps : Pairs) (t : Transaction E C) (s : S)
        → each is_done visit nxt (p ∷ ps) t s
          ≡ after_walk
              (visit_all visit (p ∷ ps) t s)
              (λ _ t' s'. some (ok (some (last_key p ps)), t', s'))
    unfolding each visit_all last_key
    each-eq nxt p [] t s = rw (runs s) (
        after_walk_cong (visit p.0 p.1 t s) (λ v t' s'. refl)
        ∙ sym (after_walk_assoc (visit p.0 p.1 t s) _ _))
    each-eq nxt p (q ∷ ps) t s = rw (runs s) (
        after_walk_cong (visit p.0 p.1 t s) (λ v t' s'. each-eq nxt q ps t' s')
        ∙ sym (after_walk_assoc (visit p.0 p.1 t s) _ _))

    visit_all-append :
        (ps qs : Pairs) (t : Transaction E C) (s : S)
        → visit_all visit (ps ++ qs) t s
          ≡ after_walk (visit_all visit ps t s) (λ _. visit_all visit qs)
    unfolding visit_all
    visit_all-append [] qs t s = refl
    visit_all-append ((k, v) ∷ ps) qs t s =
        after_walk_cong (visit k v t s) (λ u t' s'. visit_all-append ps qs t' s')
        ∙ sym (after_walk_assoc (visit k v t s) _ _)

    visit_all-nil : (t : Transaction E C) (s : S) → visit_all visit [] t s ≡ some (ok tt, t, s)
    unfolding visit_all
    visit_all-nil t s = refl

    batch-eq :
        (rest : Option Key → Walk (Transaction E C) S (Unit {0})) (nxt : Option Key) (beg end : Key)
        (m : ℕ) (cur : Pairs) (t : Transaction E C) (s : S)
        → All IsMeant cur
        → IsOpen L t
        → range (start_of beg nxt) end (contents L t) ≡ cur
        → ((k : Key) (t' : Transaction E C) (s' : S)
            → All IsMeant (range (k ++ 0 ∷ []) end (contents L t'))
            → IsOpen L t'
            → length (range (k ++ 0 ∷ []) end (contents L t')) < length cur
            → rest (some k) t' s' ≡ visit_all visit (range (k ++ 0 ∷ []) end (contents L t')) t' s')
        → on_batch is_done visit rest nxt (take (suc m) cur) t s ≡ visit_all visit cur t s
    batch-eq rest nxt beg end m [] t s meant h e ih = sym (visit_all-nil t s)
    batch-eq rest nxt beg end m (p ∷ xs) t s meant h e ih =
        let y = visit_all-Visited (p ∷ take m xs) t s (meant.0, All-take IsMeant m xs meant.1) h in
        let k = last_key p (take m xs) in
        let left : range (k ++ 0 ∷ []) end (contents L y.after) ≡ drop m xs =
          ap (range (k ++ 0 ∷ []) end) y.same ∙ rest_of_range L (start_of beg nxt) end t p m xs e in
        let shorter : length (range (k ++ 0 ∷ []) end (contents L y.after)) < suc (length xs) =
          rw left (omega (arith, length-drop m xs)) in
        let tail : rest (some k) y.after y.state ≡ visit_all visit (drop m xs) y.after y.state =
          ih k y.after y.state (rw left (All-drop IsMeant m xs meant.1)) y.open_ shorter
          ∙ ap (λ l. visit_all visit l y.after y.state) left in
        let whole : visit_all visit (p ∷ xs) t s ≡ visit_all visit (drop m xs) y.after y.state =
          ap (λ l. visit_all visit (p ∷ l) t s) (sym (take-drop m xs))
          ∙ visit_all-append (p ∷ take m xs) (drop m xs) t s
          ∙ rw y.ended refl in
        rw (each-eq (pushed is_done visit nxt) p (take m xs) t s) (rw y.ended (tail ∙ sym whole))

    -- The loop over a range, in batches of 1000, visits every pair of the range once and in the order
    -- of the keys, and ends: it is one plain pass over the pairs. The visits of these pairs succeed
    -- and leave an open transaction with the same pairs, and nobody finishes the context.
    pub walk_range-exact :
        (fuel : ℕ) (beg end : Key) (nxt : Option Key) (t : Transaction E C) (s : S)
        → All IsMeant (range (start_of beg nxt) end (contents L t))
        → IsOpen L t
        → length (range (start_of beg nxt) end (contents L t)) < fuel
        → walk_range is_done visit fuel beg end nxt t s
          ≡ visit_all visit (range (start_of beg nxt) end (contents L t)) t s
    unfolding walk_range
    walk_range-exact zero beg end nxt t s meant h lt = absurd (omega arith)
    walk_range-exact (suc fuel) beg end nxt t s meant h lt =
        rw (runs s, scan-open L t (start_of beg nxt) end 1000 h)
          (batch-eq (walk_range is_done visit fuel beg end) nxt beg end 999
            (range (start_of beg nxt) end (contents L t)) t s meant h refl
            (λ k t' s' meant' h' lt'.
              walk_range-exact fuel beg end (some k) t' s' meant' h' (omega arith)))

    -- Several ranges are walked through one after another.
    pub walk_ranges-exact :
        (fuel : ℕ) (keys : List (Key × Key)) (t : Transaction E C) (s : S)
        → All IsMeant (pairs_of keys (contents L t))
        → IsOpen L t
        → length (contents L t) < fuel
        → walk_ranges is_done visit fuel keys t s
          ≡ visit_all visit (pairs_of keys (contents L t)) t s
    unfolding walk_ranges pairs_of
    walk_ranges-exact fuel [] t s meant h lt = sym (visit_all-nil t s)
    walk_ranges-exact fuel ((beg, end) ∷ keys) t s meant h lt =
        let ps = range beg end (contents L t) in
        let (here, there) = All-split IsMeant ps (pairs_of keys (contents L t)) meant in
        let y = visit_all-Visited ps t s here h in
        let le = length-range-le beg end (contents L t) in
        let first : walk_range is_done visit fuel beg end none t s
            ≡ some (ok tt, y.after, y.state) =
          walk_range-exact fuel beg end none t s here h (omega arith) ∙ y.ended in
        let short : length (contents L y.after) < fuel = rw y.same lt in
        rw first (
          walk_ranges-exact fuel keys y.after y.state (rw y.same there) y.open_ short
          ∙ rw y.same
              (sym (visit_all-append ps (pairs_of keys (contents L t)) t s ∙ rw y.ended refl)))
