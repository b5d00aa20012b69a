-- ===== src/Kvs/Batch/Prefix.antt =====
-- The prefix reads of lib/src/kvs/tx.rs.
use surreal_dbservice.Base.{
  ℕ, ◌≡◌, refl, ap, ◌∙◌, Bool, true, false, not, ◌&&◌, some, [], ◌∷◌, ◌++◌, arith, ltb, ◌==◌,
  if◌then◌else◌,
}
use surreal_dbservice.Base.Lists.{take}
use surreal_dbservice.Err.{ok}
use surreal_dbservice.Kvs.Engine.{Engine, Key}
use surreal_dbservice.Kvs.Cache.{Catalog}
use surreal_dbservice.Kvs.Laws.{ScanLaws}
use surreal_dbservice.Kvs.Order.{Pairs, range, key_ltb}
use surreal_dbservice.Kvs.Tx.{Transaction}
use surreal_dbservice.Kvs.Batch.{getp, delp}
use surreal_dbservice.Kvs.Batch.Exact.{IsOpen, contents, getr_exact}
use surreal_dbservice.Kvs.Batch.Erase.{Ends, delr_exact}

-- The key is the prefix itself, or the prefix and a next byte below 0xff.
pub extends : Key → Key → Bool
extends [] [] = true
extends [] (b ∷ j) = ltb b 0xff
extends (a ∷ p) [] = false
extends (a ∷ p) (b ∷ j) = a == b && extends p j

pub with_prefix : Key → Pairs → Pairs
with_prefix p [] = []
with_prefix p ((k, v) ∷ xs) =
    let rest = with_prefix p xs in if extends p k then (k, v) ∷ rest else rest

pub extends-eq : (p j : Key) → (not (key_ltb j p) && key_ltb j (p ++ 0xff ∷ [])) ≡ extends p j
unfolding extends key_ltb
extends-eq [] [] = refl
extends-eq [] (b ∷ []) = ground arith
extends-eq [] (b ∷ c ∷ j) = ground arith
extends-eq (a ∷ p) [] = refl
extends-eq (a ∷ p) (b ∷ j) = ground (arith, extends-eq p j)

range-prefix : (p : Key) (xs : Pairs) → range p (p ++ 0xff ∷ []) xs ≡ with_prefix p xs
unfolding range with_prefix
range-prefix p [] = refl
range-prefix p ((k, v) ∷ xs) = rw (extends-eq p k, range-prefix p xs) refl

module _ {E : Engine} {C : Catalog} (L : ScanLaws E) where
  -- On an open transaction `getp` returns the first `limit` pairs, in key order, whose key is the
  -- prefix or goes on behind it with a byte below 0xff. A key that goes on with 0xff is not found.
  pub getp_exact :
      (key : Key) (limit : ℕ) (t : Transaction E C)
      → IsOpen L t
      → getp key limit t ≡ some (ok (take limit (with_prefix key (contents L t))), t)
  unfolding getp
  getp_exact key limit t h =
      getr_exact L key (key ++ 0xff ∷ []) limit t h
      ∙ ap (λ xs. some (ok (take limit xs), t)) (range-prefix key (contents L t))

  -- On an open writable transaction `delp` ends, succeeds, and erases exactly what `getp` would have returned.
  pub delp_exact :
      (key : Key) (limit : ℕ) (t : Transaction E C)
      → IsOpen L t
      → Ends L t (take limit (with_prefix key (contents L t))) (delp key limit t)
  unfolding delp
  delp_exact key limit t h =
      rw (← range-prefix key (contents L t)) (delr_exact L key (key ++ 0xff ∷ []) limit t h)
