-- ===== src/Sql/Array/Abolish.antt =====
-- lib/src/sql/array.rs: `abolish`, which drops the items whose index satisfies a test, in place.
use surreal_dbservice.Base.{
  ℕ, zero, suc, ◌+◌, ◌-◌, ◌≡◌, refl, ap, sym, ◌∙◌, Bool, true, false, Option, none, some, List, [],
  ◌∷◌, ◌++◌, arith, ltb, if◌then◌else◌,
}
use mathlib.Core.List.{append_assoc, append-nil}
use surreal_dbservice.Base.Lists.{length, take, length-append, take-exact}

module _ {A : Type 0} where
  -- an item of a vector, and a vector with another item at an index
  abbrev pub nth : ℕ → List A → Option A
  nth i [] = none
  nth zero (x ∷ xs) = some x
  nth (suc i) (x ∷ xs) = nth i xs

  abbrev pub put_at : ℕ → A → List A → List A
  put_at i a [] = []
  put_at zero a (x ∷ xs) = a ∷ xs
  put_at (suc i) a (x ∷ xs) = x ∷ put_at i a xs

  -- `swap`, which panics out of range
  abbrev pub exchange : ℕ → ℕ → Option A → Option A → List A → List A
  exchange i j (some a) (some b) xs = put_at i b (put_at j a xs)
  exchange i j _ _ xs = xs

  unfoldable pub swap : ℕ → ℕ → List A → List A
  swap i j xs = exchange i j (nth i xs) (nth j xs) xs

  -- The loop from `i` on, with `fuel` indices left: `del` items have been dropped so far.
  unfoldable pub abolish_loop : (ℕ → Bool) → ℕ → ℕ → ℕ → List A → ℕ × List A
  unfolding swap
  abolish_loop f zero i del v = (del, v)
  abolish_loop f (suc fuel) i del v =
      let dropped = abolish_loop f fuel (i + 1) (del + 1) v in
      let swapped = abolish_loop f fuel (i + 1) del (swap (i - del) i v) in
      let kept = abolish_loop f fuel (i + 1) del v in
      if f i then dropped else if ltb 0 del then swapped else kept

  abbrev pub truncated : ℕ → ℕ × List A → List A
  truncated len (del, v) = if ltb 0 del then take (len - del) v else v

  unfoldable pub abolish : (ℕ → Bool) → List A → List A
  unfolding abolish_loop
  abolish f v = truncated (length v) (abolish_loop f (length v) 0 0 v)

  -- The items whose index, counted from `i`, does not satisfy the test, in their order.
  unfoldable pub kept_from : (ℕ → Bool) → ℕ → List A → List A
  kept_from f i [] = []
  kept_from f i (x ∷ xs) = let rest = kept_from f (i + 1) xs in if f i then rest else x ∷ rest

  nth-front : (ks : List A) (x : A) (xs : List A) → nth (length ks) (ks ++ x ∷ xs) ≡ some x
  nth-front [] x xs = refl
  nth-front (k ∷ ks) x xs = nth-front ks x xs

  put_at-front :
      (ks : List A) (x y : A) (xs : List A) → put_at (length ks) y (ks ++ x ∷ xs) ≡ ks ++ y ∷ xs
  put_at-front [] x y xs = refl
  put_at-front (k ∷ ks) x y xs = ap (λ l. k ∷ l) (put_at-front ks x y xs)

  -- the first of the dropped items changes places with the item behind them
  swap-front :
      (i j : ℕ) (ks : List A) (d : A) (ds : List A) (x : A) (xs : List A)
      → i ≡ length ks
      → j ≡ length ks + (length ds + 1)
      → swap i j (ks ++ d ∷ (ds ++ x ∷ xs)) ≡ ks ++ x ∷ (ds ++ d ∷ xs)
  unfolding swap
  swap-front i j ks d ds x xs ei ej =
      let far : j ≡ length (ks ++ d ∷ ds) = omega (arith, length-append ks (d ∷ ds)) in
      let there : nth j (ks ++ d ∷ (ds ++ x ∷ xs)) ≡ some x =
        rw (far, ← append_assoc ks (d ∷ ds) (x ∷ xs)) (nth-front (ks ++ d ∷ ds) x xs) in
      let moved : put_at j d (ks ++ d ∷ (ds ++ x ∷ xs)) ≡ ks ++ d ∷ (ds ++ d ∷ xs) =
        rw (far, ← append_assoc ks (d ∷ ds) (x ∷ xs))
          (put_at-front (ks ++ d ∷ ds) x d xs ∙ append_assoc ks (d ∷ ds) (d ∷ xs)) in
      rw (ei, nth-front ks d (ds ++ x ∷ xs), there, moved) (put_at-front ks d x (ds ++ d ∷ xs))

  -- a vector with the items `ys` in front, and behind them as many as have been dropped
  abbrev Leaves : ℕ × List A → List A → Type 0
  Leaves r ys = (junk : List A) × (r ≡ (length junk, ys ++ junk))

  Leaves-if :
      (b : Bool) (r q : ℕ × List A) (ks ys zs : List A)
      → Leaves r (ks ++ ys)
      → Leaves q (ks ++ zs)
      → Leaves (if b then r else q) (ks ++ (if b then ys else zs))
  Leaves-if true r q ks ys zs h k = h
  Leaves-if false r q ks ys zs h k = k

  -- an item that stays, before the rest of the loop
  stays :
      (f : ℕ → Bool) (x : A) (xs ks ds : List A) (i : ℕ)
      → i ≡ length ks + length ds
      → ((ks' ds' : List A)
          → (i + 1) ≡ length ks' + length ds'
          → Leaves
              (abolish_loop f (length xs) (i + 1) (length ds') (ks' ++ (ds' ++ xs)))
              (ks' ++ kept_from f (i + 1) xs))
      → Leaves
          (if ltb 0 (length ds)
            then abolish_loop f
                (length xs)
                (i + 1)
                (length ds)
                (swap (i - length ds) i (ks ++ (ds ++ x ∷ xs)))
            else abolish_loop f (length xs) (i + 1) (length ds) (ks ++ (ds ++ x ∷ xs)))
          (ks ++ x ∷ kept_from f (i + 1) xs)
  stays f x xs ks [] i e ih =
      let rest = ih (ks ++ x ∷ []) [] (omega (arith, length-append ks (x ∷ []))) in
      rw (append_assoc ks (x ∷ []) xs, append_assoc ks (x ∷ []) (kept_from f (i + 1) xs)) at rest
  stays f x xs ks (d ∷ ds) i e ih =
      let rest =
        ih (ks ++ x ∷ []) (ds ++ d ∷ [])
          (omega (arith, length-append ks (x ∷ []), length-append ds (d ∷ []))) in
      let some_dropped : ltb 0 (suc (length ds)) ≡ true = ground arith in
      let more : length (ds ++ d ∷ []) ≡ suc (length ds) =
        omega (arith, length-append ds (d ∷ [])) in
      rw (some_dropped, swap-front (i - suc (length ds)) i ks d ds x xs (omega arith) (omega arith))
        (rw
          (
            append_assoc ks (x ∷ []) ((ds ++ d ∷ []) ++ xs),
            append_assoc ds (d ∷ []) xs,
            append_assoc ks (x ∷ []) (kept_from f (i + 1) xs),
            more,
          )
          at rest)

  -- The invariant of the loop: the kept items, the dropped ones, and the items not yet seen.
  loop_keeps :
      (f : ℕ → Bool) (xs ks ds : List A) (i : ℕ)
      → i ≡ length ks + length ds
      → Leaves
          (abolish_loop f (length xs) i (length ds) (ks ++ (ds ++ xs)))
          (ks ++ kept_from f i xs)
  unfolding abolish_loop kept_from
  loop_keeps f [] ks ds i e = (ds, rw (append-nil ds, append-nil ks) refl)
  loop_keeps f (x ∷ xs) ks ds i e =
      let gone =
        loop_keeps f xs ks (ds ++ x ∷ []) (i + 1) (omega (arith, length-append ds (x ∷ []))) in
      let more : length (ds ++ x ∷ []) ≡ length ds + 1 = omega (arith, length-append ds (x ∷ [])) in
      Leaves-if (f i) _ _ ks (kept_from f (i + 1) xs) (x ∷ kept_from f (i + 1) xs)
        (rw (more, append_assoc ds (x ∷ []) xs) at gone)
        (stays f x xs ks ds i e (λ ks' ds' e'. loop_keeps f xs ks' ds' (i + 1) e'))

  length-put_at : (i : ℕ) (a : A) (xs : List A) → length (put_at i a xs) ≡ length xs
  length-put_at i a [] = refl
  length-put_at zero a (x ∷ xs) = refl
  length-put_at (suc i) a (x ∷ xs) = ap suc (length-put_at i a xs)

  length-exchange :
      (i j : ℕ) (m n : Option A) (xs : List A) → length (exchange i j m n xs) ≡ length xs
  length-exchange i j (some a) (some b) xs =
      length-put_at i b (put_at j a xs) ∙ length-put_at j a xs
  length-exchange i j (some a) none xs = refl
  length-exchange i j none n xs = refl

  length-swap : (i j : ℕ) (xs : List A) → length (swap i j xs) ≡ length xs
  unfolding swap
  length-swap i j xs = length-exchange i j (nth i xs) (nth j xs) xs

  length-if :
      (b : Bool) (r q : ℕ × List A) (n : ℕ)
      → length r.1 ≡ n
      → length q.1 ≡ n
      → length (if b then r else q).1 ≡ n
  length-if true r q n h k = h
  length-if false r q n h k = k

  length-abolish_loop :
      (f : ℕ → Bool) (fuel i del : ℕ) (v : List A)
      → length (abolish_loop f fuel i del v).1 ≡ length v
  unfolding abolish_loop
  length-abolish_loop f zero i del v = refl
  length-abolish_loop f (suc fuel) i del v =
      let onwards = length-abolish_loop f fuel (i + 1) in
      length-if (f i) _ _ (length v) (onwards (del + 1) v) (
        length-if (ltb 0 del) _ _ (length v)
          (onwards del (swap (i - del) i v) ∙ length-swap (i - del) i v) (onwards del v))

  truncated-eq :
      (n : ℕ) (ys junk : List A)
      → length (ys ++ junk) ≡ n
      → truncated n (length junk, ys ++ junk) ≡ ys
  truncated-eq n ys [] e = append-nil ys
  truncated-eq n ys (d ∷ ds) e =
      let some_dropped : ltb 0 (suc (length ds)) ≡ true = ground arith in
      let left : n - suc (length ds) ≡ length ys = omega (arith, length-append ys (d ∷ ds)) in
      rw (some_dropped, left) (take-exact ys (d ∷ ds))

  -- `abolish` leaves the items whose index does not satisfy the test, in their order.
  pub abolish-eq : (f : ℕ → Bool) (v : List A) → abolish f v ≡ kept_from f 0 v
  unfolding abolish
  abolish-eq f v =
      let (junk, e) = loop_keeps f v [] [] 0 refl in
      let same : length (kept_from f 0 v ++ junk) ≡ length v =
        sym (ap (λ r. length r.1) e) ∙ length-abolish_loop f (length v) 0 0 v in
      ap (truncated (length v)) e ∙ truncated-eq (length v) (kept_from f 0 v) junk same
