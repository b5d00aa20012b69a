-- ===== src/Kvs/Find.antt =====
-- What the value under a key is after the deletions of lib/src/kvs/tx.rs.
use surreal_dbservice.Base.{
  ℕ, zero, suc, ◌≤◌, ◌≡◌, refl, ap, false, not, ◌&&◌, none, List, [], ◌∷◌, arith, Bool-cases, inl,
  inr, is_some, if◌then◌else◌,
}
use surreal_dbservice.Base.Lists.{length, take}
use surreal_dbservice.Kvs.Engine.{Key}
use surreal_dbservice.Kvs.Cache.{key_eq, key_eq_sound, key_eq_refl}
use surreal_dbservice.Kvs.Laws.{without, find}
use surreal_dbservice.Kvs.Order.{Pairs, range, key_ltb}
use surreal_dbservice.Kvs.Batch.Erase.{without_all}

pub key_eq_sym : (i k : Key) → key_eq i k ≡ false → key_eq k i ≡ false
key_eq_sym i k h = elim (Bool-cases (key_eq k i)) [
  | inl e ↦ let p = key_eq_sound k i e in cc (h, p, key_eq_refl i)
  | inr e ↦ e
]

pub find-without :
    (k j : Key) (xs : Pairs) → find j (without k xs) ≡ (if key_eq k j then none else find j xs)
unfolding find without
find-without k j [] = ground arith
find-without k j ((i, v) ∷ xs) = elim (Bool-cases (key_eq i k)) [
  | inl same ↦ let e = key_eq_sound i k same in rw same (rw e (ground (arith, find-without k j xs)))
  | inr other ↦ elim (Bool-cases (key_eq i j)) [
    | inl here ↦
        let e = key_eq_sound i j here in
        rw (other, here) (rw (← e) (ground (arith, key_eq_sym i k other)))
    | inr away ↦ rw (other, away) (ground (arith, find-without k j xs))
  ]
]

find-without_all :
    (ps xs : Pairs) (j : Key)
    → find j (without_all ps xs) ≡ (if is_some (find j ps) then none else find j xs)
unfolding without_all find
find-without_all [] xs j = refl
find-without_all ((k, v) ∷ ps) xs j =
    ground (arith, find-without_all ps (without k xs) j, find-without k j xs)

find-range :
    (a b j : Key) (xs : Pairs)
    → find j (range a b xs) ≡ (if not (key_ltb j a) && key_ltb j b then find j xs else none)
unfolding find range
find-range a b j [] = ground arith
find-range a b j ((k, v) ∷ xs) = elim (Bool-cases (key_eq k j)) [
  | inl same ↦
      let e = key_eq_sound k j same in rw e (ground (arith, find-range a b j xs, key_eq_refl j))
  | inr other ↦ rw other (ground (arith, find-range a b j xs))
]

-- The keys of a range are gone, and the others are as before.
pub find-without_range :
    (a b j : Key) (xs : Pairs)
    → find j (without_all (range a b xs) xs)
      ≡ (if not (key_ltb j a) && key_ltb j b then none else find j xs)
find-without_range a b j xs =
    ground (arith, find-without_all (range a b xs) xs j, find-range a b j xs)

pub take_all {ℓ} : {A : Type ℓ} (n : ℕ) (xs : List A) → length xs ≤ n → take n xs ≡ xs
take_all zero [] h = refl
take_all zero (x ∷ xs) h = absurd (omega arith)
take_all (suc n) [] h = refl
take_all (suc n) (x ∷ xs) h = ap (λ ys. x ∷ ys) (take_all n xs (omega arith))

pub length-range-le : (a b : Key) (xs : Pairs) → length (range a b xs) ≤ length xs
unfolding range
length-range-le a b [] = omega arith
length-range-le a b ((k, v) ∷ xs) = ground (arith, length-range-le a b xs)
