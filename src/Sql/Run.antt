-- ===== src/Sql/Run.antt =====
-- The shape of the functions `compute` of lib/src/sql/statements: a run on a transaction, which ends
-- in a value or an error, or panics (`none`). The `?` of the source is the bind of a `do` block.
pub mod Rules
use surreal_dbservice.Base.{Option, none, some, List, [], ◌∷◌}
use surreal_dbservice.Err.{Result, ok, err, Error}
use surreal_dbservice.Kvs.Engine.{Engine}
use surreal_dbservice.Kvs.Cache.{Catalog}
use surreal_dbservice.Kvs.Tx.{Transaction}
use surreal_dbservice.Kvs.Definitions.{Outcome}

abbrev pub Run : Engine → Catalog → Type 0 → Type 0
Run E C A = Transaction E C → Outcome E C A

module _ {E : Engine} {C : Catalog} where
  abbrev pub bind_outcome : {A B : Type 0} → Outcome E C A → (A → Run E C B) → Outcome E C B
  bind_outcome none f = none
  bind_outcome (some (err e, t)) f = some (err e, t)
  bind_outcome (some (ok v, t)) f = f v t

  infixl 5 ◌>>=◌ ◌>>◌
  abbrev pub ◌>>=◌ : {A B : Type 0} → Run E C A → (A → Run E C B) → Run E C B
  ◌>>=◌ m f t = bind_outcome (m t) f

  abbrev pub ◌>>◌ : {B : Type 0} → Run E C (Unit {0}) → Run E C B → Run E C B
  ◌>>◌ m k = m >>= λ _. k

  abbrev pub pure : {A : Type 0} → A → Run E C A
  pure v t = some (ok v, t)

  abbrev pub fail : {A : Type 0} → Error → Run E C A
  fail e t = some (err e, t)

  abbrev pub panic : {A : Type 0} → Run E C A
  panic t = none

  -- a result that needs no transaction
  abbrev pub checked : {A : Type 0} → Result A → Run E C A
  checked r t = some (r, t)

  -- a method of the transaction
  abbrev pub call : {A : Type 0} → (Transaction E C → Result A × Transaction E C) → Run E C A
  call f t = some (f t)

  -- the same, where the value is not used
  abbrev pub dropped : {A : Type 0} → Result A × Transaction E C → Outcome E C (Unit {0})
  dropped (ok _, t) = some (ok tt, t)
  dropped (err e, t) = some (err e, t)

  abbrev pub call_ :
      {A : Type 0} → (Transaction E C → Result A × Transaction E C) → Run E C (Unit {0})
  call_ f t = dropped (f t)

  -- `unwrap`
  abbrev pub the : {A : Type 0} → Option A → Run E C A
  the none = panic
  the (some v) = pure v

  abbrev pub for_each : {A : Type 0} → (A → Run E C (Unit {0})) → List A → Run E C (Unit {0})
  for_each f [] = pure tt
  for_each f (x ∷ xs) = f x >> for_each f xs
