-- ===== src/Doc/Denied.antt =====
-- lib/src/doc on a record that the permissions of its table refuse.
use surreal_dbservice.Base.{
  ◌≡◌, refl, Bool, true, false, not, ◌&&◌, Bool-cases, inl, inr, if◌then◌else◌, Option, some,
  is_some, String,
}
use surreal_dbservice.Err.{ok, err, ignore}
use surreal_dbservice.Kvs.Engine.{Engine}
use surreal_dbservice.Kvs.Tx.{Transaction}
use surreal_dbservice.Kvs.Definitions.{Codec}
use surreal_dbservice.Keys.{Storekey}
use surreal_dbservice.Ctx.{Context}
use surreal_dbservice.Dbs.Options.{Options, with_perms}
use surreal_dbservice.Sql.Definition.{Parts, catalog, Table}
use surreal_dbservice.Sql.Permission.{Permission, Permissions, no_permission, specific}
use surreal_dbservice.Doc.{Document, Thing, Statement, World, Verb, is_new}
use surreal_dbservice.Doc
use surreal_dbservice.Doc.Known.{Known, tb-Known}
use surreal_dbservice.Doc.Checks.{check, allow, allow_by, clause_of, guarded_by_perms, empty}
use surreal_dbservice.Doc.Edit.{erase}
use surreal_dbservice.Doc.Process.{
  Operable, value_in, work_of, run_verb, select, update, relate, delete, insert, compute,
}

-- the permission that a statement needs for a record, which may be new
abbrev pub permission_for : {V : Type 0} → Verb → Bool → Permissions V → Permission V
permission_for Doc.select fresh p = p.select
permission_for Doc.delete fresh p = p.delete
permission_for Doc.create fresh p = if fresh then p.create else p.update
permission_for Doc.update fresh p = if fresh then p.create else p.update
permission_for Doc.relate fresh p = if fresh then p.create else p.update
permission_for Doc.insert fresh p = if fresh then p.create else p.update

-- the verbs that ask before they compute a new record
abbrev pub asks_first : Verb → Bool
asks_first Doc.create = false
asks_first _ = true

abbrev pub started : {K : Storekey} {V : Type 0} → Option (Thing K) → Operable K V → Document K V
started id v = record { id = id; extras = work_of v; current = value_in v; initial = value_in v }

module _ {E : Engine} {K : Storekey} {Q : Parts} (D : Codec (catalog Q)) (W : World E K Q)
    (ctx : Context Q.Value) (o : Options) (s : Statement Q.Idiom Q.Value W.Fields) (ns db : String)
    (rid : Thing K) (table : Table Q) (t : Transaction E (catalog Q))
    (known : Known K Q ns db rid o table t) where
  -- the permission of the statement is NONE, and it counts
  abbrev pub Refuses : Document K Q.Value → Type 0
  Refuses d =
      (d.id ≡ some rid)
      × (guarded_by_perms D W o d ≡ true)
      × (permission_for s.verb (is_new W d) table.permissions ≡ no_permission)

  clause_of-eq :
      (d : Document K Q.Value)
      → clause_of D W s d table.permissions ≡ permission_for s.verb (is_new W d) table.permissions
  unfolding clause_of
  clause_of-eq d = by_cases s.verb (is_new W d) table.permissions
    where
      by_cases :
          {V : Type 0} (verb : Verb) (fresh : Bool) (p : Permissions V)
          → (if Doc.is_delete_verb verb
              then p.delete
              else if Doc.is_select_verb verb
              then p.select
              else if fresh
              then p.create
              else p.update)
            ≡ permission_for verb fresh p
      by_cases Doc.select fresh p = refl
      by_cases Doc.create fresh p = refl
      by_cases Doc.update fresh p = refl
      by_cases Doc.relate fresh p = refl
      by_cases Doc.delete fresh p = refl
      by_cases Doc.insert fresh p = refl

  allow-refused :
      (d : Document K Q.Value) → Refuses d → allow D W ctx o s d t ≡ some (err ignore, t)
  unfolding allow allow_by
  allow-refused d (e, guarded, clause) =
      rw (guarded, tb-Known K Q D ns db rid o table t d e known, clause_of-eq d, clause) refl

  select-refused :
      (d : Document K Q.Value)
      → Refuses d
      → check D W ctx o s d t ≡ some (ok tt, t)
      → select D W ctx o s d t ≡ some (err ignore, t)
  unfolding select empty
  select-refused d h passes = elim (Bool-cases (is_some d.id && W.is_none d.current)) [
    | inl missing ↦ rw missing refl
    | inr there ↦ rw (there, passes, allow-refused d h) refl
  ]

  update-refused :
      (d : Document K Q.Value)
      → Refuses d
      → check D W ctx o s d t ≡ some (ok tt, t)
      → update D W ctx o s d t ≡ some (err ignore, t)
  unfolding update
  update-refused d h passes = rw (passes, allow-refused d h) refl

  relate-refused :
      (d : Document K Q.Value) → Refuses d → relate D W ctx o s d t ≡ some (err ignore, t)
  unfolding relate
  relate-refused d h = rw (allow-refused d h) refl

  insert-refused :
      (d : Document K Q.Value) → Refuses d → insert D W ctx o s d t ≡ some (err ignore, t)
  unfolding insert
  insert-refused d h = elim (Bool-cases (not (W.is_none d.current))) [
    | inl there ↦ rw (there, allow-refused d h) refl
    | inr fresh ↦ rw (fresh, allow-refused d h) refl
  ]

  delete-refused :
      (d : Document K Q.Value) (v : Q.Value)
      → Refuses (record d { current = v })
      → check D W ctx o s d t ≡ some (ok tt, t)
      → W.clear ctx o d.current t ≡ some (ok v, t)
      → delete D W ctx o s d t ≡ some (err ignore, t)
  unfolding delete erase
  delete-refused d v h passes cleared =
      rw (passes, cleared, allow-refused (record d { current = v }) h) refl

  -- the permission of a DELETE does not depend on the record
  erased-Refuses :
      (d : Document K Q.Value) (v : Q.Value)
      → s.verb ≡ Doc.delete
      → Refuses d
      → Refuses (record d { current = v })
  unfolding guarded_by_perms
  erased-Refuses d v e (i, guarded, clause) = (i, guarded, rw e (rw e at clause))

  verb-refused :
      (verb : Verb) (d : Document K Q.Value) (v : Q.Value)
      → s.verb ≡ verb
      → asks_first verb ≡ true
      → Refuses d
      → check D W ctx o s d t ≡ some (ok tt, t)
      → W.clear ctx o d.current t ≡ some (ok v, t)
      → run_verb D W ctx o s verb d t ≡ some (err ignore, t)
  verb-refused Doc.create d v e asks h passes cleared = cc
  verb-refused Doc.select d v e asks h passes cleared = select-refused d h passes
  verb-refused Doc.update d v e asks h passes cleared = update-refused d h passes
  verb-refused Doc.relate d v e asks h passes cleared = relate-refused d h
  verb-refused Doc.insert d v e asks h passes cleared = insert-refused d h
  verb-refused Doc.delete d v e asks h passes cleared =
      delete-refused d v (erased-Refuses d v e h) passes cleared

  -- A record that the permissions of its table refuse is left alone: where the permission of the table
  -- for the statement is NONE and permissions count, every statement but CREATE answers that the record
  -- is to be ignored, with the transaction as it was. The table is in the cache, the record passes the
  -- condition of the statement, and the clearing of a record that is deleted succeeds.
  pub denied_changes_nothing :
      (id : Option (Thing K)) (x : Operable K Q.Value) (v : Q.Value)
      → asks_first s.verb ≡ true
      → Refuses (started id x)
      → check D W ctx o s (started id x) t ≡ some (ok tt, t)
      → W.clear ctx o (value_in x) t ≡ some (ok v, t)
      → compute D W ctx o s id x t ≡ some (err ignore, t)
  unfolding compute
  denied_changes_nothing id x v asks h passes cleared =
      verb-refused s.verb (started id x) v refl asks h passes cleared

  -- DELETE asks for its permission behind the clearing of the record: where the permission is a
  -- condition that does not hold of the cleared record, the deletion is refused whatever the record
  -- held before, even where the condition holds of it.
  pub delete_permission_sees_cleared :
      (d : Document K Q.Value) (e v r : Q.Value)
      → s.verb ≡ Doc.delete
      → d.id ≡ some rid
      → guarded_by_perms D W o d ≡ true
      → table.permissions.delete ≡ specific e
      → check D W ctx o s d t ≡ some (ok tt, t)
      → W.clear ctx o d.current t ≡ some (ok v, t)
      → W.compute e ctx (with_perms false o) v t ≡ some (ok r, t)
      → W.is_truthy r ≡ false
      → delete D W ctx o s d t ≡ some (err ignore, t)
  unfolding delete erase allow clause_of allow_by guarded_by_perms
  delete_permission_sees_cleared d e v r is_del i guarded clause passes cleared asked refused =
      let there = tb-Known K Q D ns db rid o table t (record d { current = v }) i known in
      rw (passes, cleared, guarded, there, is_del, clause, asked, refused) refl
