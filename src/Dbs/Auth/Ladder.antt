-- ===== src/Dbs/Auth/Ladder.antt =====
-- The levels of lib/src/dbs/auth.rs as a ladder of privileges.
use surreal_dbservice.Base.{ℕ, ◌≡◌, ◌↔◌, true, not, arith, leb}
use surreal_dbservice.Dbs.Auth.{
  Level, no_level, kv_level, ns_level, db_level, sc_level, Auth, no_auth, kv_auth, ns_auth, db_auth,
  sc_auth, check, perms, is_db, is_no, is_sc,
}

-- How much a level asks for, and how much an authentication grants.
abbrev pub asks : Level → ℕ
asks no_level = 0
asks sc_level = 1
asks db_level = 2
asks ns_level = 3
asks kv_level = 4

abbrev pub grants : Auth → ℕ
grants no_auth = 0
grants (sc_auth _ _ _) = 1
grants (db_auth _ _) = 2
grants (ns_auth _) = 3
grants kv_auth = 4

-- The table of `check` is a comparison of ranks: an authentication passes a level exactly when it
-- grants at least what the level asks for.
pub check-eq-leb : (a : Auth) (l : Level) → check a l ≡ leb (asks l) (grants a)
unfolding check
check-eq-leb a l = ground arith

-- Permission clauses are processed for exactly those that do not pass the database level.
pub perms-eq-not-is_db : (a : Auth) → perms a ≡ not (is_db a)
unfolding check perms is_db
perms-eq-not-is_db a = ground arith

-- `is_no` and `is_sc` agree, and `is_no` holds for every authentication but the missing one.
pub is_no-eq-is_sc : (a : Auth) → (is_no a ≡ is_sc a) × ((is_no a ≡ true) ↔ (a ≡ no_auth → ⊥))
unfolding check is_no is_sc
is_no-eq-is_sc a = ground arith
