-- ===== src/Sql/Run/Rules.antt =====
-- Rules for the runs of lib/src/sql/statements: guards, the calls that store and erase, and what does
-- not panic.
use surreal_dbservice.Base.{◌≡◌, refl, some, List, [], ◌∷◌, Returns, returned}
use surreal_dbservice.Err.{Result, ok, err, Error, both}
use surreal_dbservice.Kvs.Engine.{Engine}
use surreal_dbservice.Kvs.Cache.{Catalog}
use surreal_dbservice.Kvs.Tx.{Transaction}
use surreal_dbservice.Kvs.Definitions.{Outcome}
use surreal_dbservice.Sql.Run.{
  Run, bind_outcome, ◌>>=◌, ◌>>◌, checked, call, call_, dropped, for_each,
}

-- The run succeeds, in a transaction of which `P` holds.
pub data Succeeds {E : Engine} {C : Catalog} {A : Type 0} (P : Transaction E C → Type 0)
    : Outcome E C A → Type 0 where
  succeeded : (v : A) (t : Transaction E C) → P t → Succeeds P (some (ok v, t))

module _ {E : Engine} {C : Catalog} where
  pub Succeeds-bind :
      {A B : Type 0} (P : Transaction E C → Type 0) {R : Transaction E C → Type 0}
      (o : Outcome E C A) (f : A → Run E C B)
      → Succeeds P o
      → ((v : A) (t : Transaction E C) → P t → Succeeds R (f v t))
      → Succeeds R (bind_outcome o f)
  Succeeds-bind P o f (succeeded v t p) k = k v t p

  pub Succeeds-eq :
      (P : Transaction E C → Type 0) {o : Outcome E C (Unit {0})}
      → Succeeds P o
      → (t : Transaction E C) × (o ≡ some (ok tt, t)) × P t
  Succeeds-eq P (succeeded tt t p) = (t, refl, p)

  pub Returns-bind :
      {A B : Type 0} (o : Outcome E C A) (f : A → Run E C B)
      → Returns o
      → ((v : A) (t : Transaction E C) → Returns (f v t))
      → Returns (bind_outcome o f)
  Returns-bind o f (returned (err e, t)) k = returned _
  Returns-bind o f (returned (ok v, t)) k = k v t

  -- a call of the transaction, then the rest
  pub Returns-call :
      {A B : Type 0} (g : Transaction E C → Result A × Transaction E C) (f : Run E C B)
      (t : Transaction E C)
      → ((t : Transaction E C) → Returns (f t))
      → Returns ((call g >>= λ _. f) t)
  Returns-call {A} g f t k = on (g t)
    where
      on : (r : Result A × Transaction E C) → Returns (bind_outcome (some r) (λ _. f))
      on (err e, t) = returned _
      on (ok v, t) = k t

  pub Returns-call_ :
      {A B : Type 0} (g : Transaction E C → Result A × Transaction E C) (f : Run E C B)
      (t : Transaction E C)
      → ((t : Transaction E C) → Returns (f t))
      → Returns ((call_ g >> f) t)
  Returns-call_ {A} g f t k = on (g t)
    where
      on : (r : Result A × Transaction E C) → Returns (bind_outcome (dropped r) (λ _. f))
      on (err e, t) = returned _
      on (ok v, t) = k t

  pub Returns-each :
      {A : Type 0} (f : A → Run E C (Unit {0})) (xs : List A) (t : Transaction E C)
      → ((x : A) (t : Transaction E C) → Returns (f x t))
      → Returns (for_each f xs t)
  Returns-each f [] t k = returned _
  Returns-each f (x ∷ xs) t k = Returns-bind (f x t) _ (k x t) (λ v t'. Returns-each f xs t' k)

  -- the two guards at the head of a statement
  abbrev pub guarded : {A : Type 0} → Result (Unit {0}) → Result (Unit {0}) → Run E C A → Run E C A
  guarded a b rest = checked a >> (checked b >> rest)

  pub guarded-err :
      {A : Type 0} (a b : Result (Unit {0})) (rest : Run E C A) (t : Transaction E C) (e : Error)
      → both a b ≡ err e
      → guarded a b rest t ≡ some (err e, t)
  guarded-err (err x) b rest t e h = cc
  guarded-err (ok _) (err x) rest t e h = cc
  guarded-err (ok _) (ok _) rest t e h = cc

  pub guarded-ok :
      {A : Type 0} (a b : Result (Unit {0})) (rest : Run E C A) (t : Transaction E C)
      → both a b ≡ ok tt
      → guarded a b rest t ≡ rest t
  guarded-ok (err x) b rest t h = cc
  guarded-ok (ok _) (err x) rest t h = cc
  guarded-ok (ok _) (ok _) rest t h = refl

  pub Returns-guarded :
      {A : Type 0} (a b : Result (Unit {0})) (rest : Run E C A) (t : Transaction E C)
      → (a ≡ ok tt → Returns (rest t))
      → Returns (guarded a b rest t)
  Returns-guarded (err x) b rest t k = returned _
  Returns-guarded (ok tt) (err x) rest t k = returned _
  Returns-guarded (ok tt) (ok _) rest t k = k refl
