-- ===== src/Sql/Statements/Selected.antt =====
-- What the first guard of a statement, `opt.needs(…)`, says of the selected namespace and database.
use surreal_dbservice.Base.{◌≡◌, refl, some, String, Returns, arith, Option-cases, inl, inr}
use surreal_dbservice.Err.{ok}
use surreal_dbservice.Kvs.Engine.{Engine}
use surreal_dbservice.Kvs.Cache.{Catalog}
use surreal_dbservice.Kvs.Tx.{Transaction}
use surreal_dbservice.Dbs.Auth.{ns_level, db_level}
use surreal_dbservice.Dbs.Options.{Options, needs}
use surreal_dbservice.Sql.Run.{Run, ◌>>=◌, the}

pub needs_ns : (o : Options) → needs o ns_level ≡ ok tt → (ns : String) × (o.ns ≡ some ns)
unfolding needs
needs_ns o h = elim (Option-cases o.ns) [ inl e ↦ absurd (ground arith) | inr found ↦ found ]

pub needs_db :
    (o : Options)
    → needs o db_level ≡ ok tt
    → (ns : String) × (db : String) × (o.ns ≡ some ns) × (o.db ≡ some db)
unfolding needs
needs_db o h = elim (Option-cases o.ns) [
  | inl e ↦ absurd (ground arith)
  | inr (ns, e) ↦ elim (Option-cases o.db) [
    | inl e' ↦ absurd (ground arith)
    | inr (db, e') ↦ (ns, db, e, e')
  ]
]

module _ {E : Engine} {C : Catalog} {A : Type 0} where
  -- behind the guard the namespace is there
  pub with_ns :
      (o : Options) (f : String → Run E C A) (t : Transaction E C)
      → needs o ns_level ≡ ok tt
      → ((ns : String) → Returns (f ns t))
      → Returns ((the o.ns >>= f) t)
  with_ns o f t h k = let (ns, e) = needs_ns o h in rw e (k ns)

  pub with_db :
      (o : Options) (f : String → String → Run E C A) (t : Transaction E C)
      → needs o db_level ≡ ok tt
      → ((ns db : String) → Returns (f ns db t))
      → Returns ((the o.ns >>= λ ns. the o.db >>= f ns) t)
  with_db o f t h k = let (ns, db, e, e') = needs_db o h in rw (e, e') (k ns db)

  pub at_ns :
      (o : Options) {ns : String} (f : String → Run E C A) (t : Transaction E C)
      → o.ns ≡ some ns
      → (the o.ns >>= f) t ≡ f ns t
  at_ns o f t e = rw e refl

  pub at_db :
      (o : Options) {ns db : String} (f : String → String → Run E C A) (t : Transaction E C)
      → o.ns ≡ some ns
      → o.db ≡ some db
      → (the o.ns >>= λ ns. the o.db >>= f ns) t ≡ f ns db t
  at_db o f t e e' = rw (e, e') refl
