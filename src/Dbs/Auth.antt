-- ===== src/Dbs/Auth.antt =====
-- lib/src/dbs/auth.rs: authentication levels.
pub mod Ladder
use surreal_dbservice.Base.{String, Bool, true, false}

pub data Level : Type 0 where
  no_level kv_level ns_level db_level sc_level : Level

pub data Auth : Type 0 where
  no_auth kv_auth : Auth
  ns_auth : String → Auth
  db_auth : String → String → Auth
  sc_auth : String → String → String → Auth

-- `Auth::check`, one clause for each `matches!`
unfoldable pub check : Auth → Level → Bool
check no_auth no_level = true
check no_auth _ = false
check (sc_auth _ _ _) no_level = true
check (sc_auth _ _ _) sc_level = true
check (sc_auth _ _ _) _ = false
check (db_auth _ _) no_level = true
check (db_auth _ _) sc_level = true
check (db_auth _ _) db_level = true
check (db_auth _ _) _ = false
check (ns_auth _) no_level = true
check (ns_auth _) sc_level = true
check (ns_auth _) db_level = true
check (ns_auth _) ns_level = true
check (ns_auth _) _ = false
check kv_auth _ = true

-- `Auth::perms`: whether permission clauses have to be processed
unfoldable pub perms : Auth → Bool
perms no_auth = true
perms (sc_auth _ _ _) = true
perms (db_auth _ _) = false
perms (ns_auth _) = false
perms kv_auth = false

pub is_kv : Auth → Bool
is_kv a = check a kv_level

pub is_ns : Auth → Bool
is_ns a = check a ns_level

pub is_db : Auth → Bool
is_db a = check a db_level

pub is_sc : Auth → Bool
is_sc a = check a sc_level

-- the source asks for the scope level here too
pub is_no : Auth → Bool
is_no a = check a sc_level
