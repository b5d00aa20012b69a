-- ===== src/Kvs/Order.antt =====
-- The order of keys in lib/src/kvs: vectors of bytes, compared byte by byte, and the key ranges.
use surreal_dbservice.Base.{
  ℕ, zero, suc, ◌≡◌, refl, Bool, true, false, not, ◌&&◌, List, [], ◌∷◌, ◌++◌, arith, ltb, ◌==◌,
  if◌then◌else◌,
}
use surreal_dbservice.Base.Lists.{take, drop, All}
use surreal_dbservice.Kvs.Cache.{key_eq}
use surreal_dbservice.Kvs.Engine.{Key, Val}

-- `k < l`
unfoldable pub key_ltb : Key → Key → Bool
key_ltb k [] = false
key_ltb [] (b ∷ l) = true
key_ltb (a ∷ k) (b ∷ l) = if ltb a b then true else if a == b then key_ltb k l else false

-- Nothing stands between a key and the same key with a zero byte behind it.
pub ltb-push_zero : (j k : Key) → key_ltb j (k ++ 0 ∷ []) ≡ not (key_ltb k j)
unfolding key_ltb
ltb-push_zero [] [] = refl
ltb-push_zero [] (b ∷ k) = refl
ltb-push_zero (a ∷ []) [] = ground arith
ltb-push_zero (a ∷ c ∷ j) [] = ground arith
ltb-push_zero (a ∷ j) (b ∷ k) = ground (arith, ltb-push_zero j k)

pub key_ltb_irrefl : (k : Key) → key_ltb k k ≡ false
unfolding key_ltb
key_ltb_irrefl [] = refl
key_ltb_irrefl (a ∷ k) = ground (arith, key_ltb_irrefl k)

pub key_ltb_trans : (j k l : Key) → key_ltb j k ≡ true → key_ltb k l ≡ true → key_ltb j l ≡ true
unfolding key_ltb
key_ltb_trans j [] l h g = ground arith
key_ltb_trans j (b ∷ k) [] h g = ground arith
key_ltb_trans [] (b ∷ k) (c ∷ l) h g = refl
key_ltb_trans (a ∷ j) (b ∷ k) (c ∷ l) h g = ground (arith, key_ltb_trans j k l)

pub key_ltb_asym : (j k : Key) → key_ltb j k ≡ true → key_ltb k j ≡ false
key_ltb_asym j k h = ground (arith, key_ltb_trans j k j, key_ltb_irrefl j)

abbrev pub Pairs : Type 0
Pairs = List (Key × Val)

-- the pairs with `a ≤ key < b`
unfoldable pub range : Key → Key → Pairs → Pairs
range a b [] = []
range a b ((k, v) ∷ xs) =
    let rest = range a b xs in if not (key_ltb k a) && key_ltb k b then (k, v) ∷ rest else rest

-- the pairs with a key above `k`
pub above : Key → Pairs → Pairs
above k [] = []
above k ((j, v) ∷ xs) = let rest = above k xs in if key_ltb k j then (j, v) ∷ rest else rest

-- strictly increasing keys
abbrev pub AllAbove : Key → Pairs → Type 0
AllAbove j xs = All (λ (p : Key × Val). key_ltb j p.0 ≡ true) xs

abbrev pub IsSorted : Pairs → Type 0
IsSorted [] = Unit
IsSorted (p ∷ xs) = AllAbove p.0 xs × IsSorted xs

AllAbove-range : (j a b : Key) (xs : Pairs) → AllAbove j xs → AllAbove j (range a b xs)
unfolding range
AllAbove-range j a b [] h = tt
AllAbove-range j a b ((k, v) ∷ xs) h = ground (arith, AllAbove-range j a b xs h.1)

pub range-IsSorted : (a b : Key) (xs : Pairs) → IsSorted xs → IsSorted (range a b xs)
unfolding range
range-IsSorted a b [] h = tt
range-IsSorted a b ((k, v) ∷ xs) h =
    ground (arith, range-IsSorted a b xs h.1, AllAbove-range k a b xs h.0)

-- The range that starts behind `k` is what a range that `k` does not precede holds above `k`.
pub range-push_zero :
    (a b k : Key) (xs : Pairs)
    → key_ltb k a ≡ false
    → range (k ++ 0 ∷ []) b xs ≡ above k (range a b xs)
unfolding range above
range-push_zero a b k [] h = refl
range-push_zero a b k ((j, v) ∷ xs) h =
    ground (arith, ltb-push_zero j k, key_ltb_trans k j a, range-push_zero a b k xs h)

pub above_all : (j : Key) (xs : Pairs) → AllAbove j xs → above j xs ≡ xs
unfolding above
above_all j [] h = refl
above_all j ((k, v) ∷ xs) h = ground (arith, above_all j xs h.1)

-- the key of the last pair of a batch
unfoldable pub last_key : Key × Val → Pairs → Key
last_key p [] = p.0
last_key p (q ∷ xs) = last_key q xs

pub last_key_above :
    (j : Key) (p : Key × Val) (m : ℕ) (xs : Pairs)
    → AllAbove j (p ∷ xs)
    → key_ltb j (last_key p (take m xs)) ≡ true
unfolding last_key
last_key_above j p zero xs h = h.0
last_key_above j p (suc m) [] h = h.0
last_key_above j p (suc m) (q ∷ xs) h = last_key_above j q m xs h.1

-- In a sorted list, what lies above the last key of a batch is what stands behind the batch.
pub above-last_key :
    (p : Key × Val) (m : ℕ) (xs : Pairs)
    → IsSorted (p ∷ xs)
    → above (last_key p (take m xs)) (p ∷ xs) ≡ drop m xs
unfolding last_key above
above-last_key p zero xs h = ground (arith, key_ltb_irrefl p.0, above_all p.0 xs h.0)
above-last_key p (suc m) [] h = ground (arith, key_ltb_irrefl p.0)
above-last_key p (suc m) (q ∷ xs) h = ground (
  arith,
  above-last_key q m xs h.1,
  last_key_above p.0 q m xs h.0,
  key_ltb_asym p.0 (last_key q (take m xs)),
)

pub last_key_in_range :
    (a : Key) (p : Key × Val) (m : ℕ) (xs : Pairs)
    → All (λ (q : Key × Val). key_ltb q.0 a ≡ false) (p ∷ xs)
    → key_ltb (last_key p (take m xs)) a ≡ false
unfolding last_key
last_key_in_range a p zero xs h = h.0
last_key_in_range a p (suc m) [] h = h.0
last_key_in_range a p (suc m) (q ∷ xs) h = last_key_in_range a q m xs h.1

pub range_bound :
    (a b : Key) (xs : Pairs) → All (λ (q : Key × Val). key_ltb q.0 a ≡ false) (range a b xs)
unfolding range
range_bound a b [] = tt
range_bound a b ((k, v) ∷ xs) = ground (arith, range_bound a b xs)

-- Of two different keys that are not in the one order, the other holds.
pub key_ltb_total : (j k : Key) → key_eq j k ≡ false → key_ltb k j ≡ false → key_ltb j k ≡ true
unfolding key_ltb key_eq
key_ltb_total [] [] h g = ground arith
key_ltb_total [] (b ∷ k) h g = refl
key_ltb_total (a ∷ j) [] h g = ground arith
key_ltb_total (a ∷ j) (b ∷ k) h g = ground (arith, key_ltb_total j k)

pub AllAbove-below : (k j : Key) (xs : Pairs) → key_ltb k j ≡ true → AllAbove j xs → AllAbove k xs
AllAbove-below k j [] lt h = tt
AllAbove-below k j ((i, v) ∷ xs) lt h = (key_ltb_trans k j i lt h.0, AllAbove-below k j xs lt h.1)
