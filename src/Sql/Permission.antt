-- ===== src/Sql/Permission.antt =====
-- lib/src/sql/permission.rs: the permissions of a table or of a field.
use surreal_dbservice.Base.{Bool, true, false, ◌&&◌}

module _ (Value : Type 0) where
  pub data Permission : Type 0 where
    no_permission full_permission : Permission
    specific : Value → Permission

  pub record Permissions : Type 0 where
    pub select : Permission
    pub create : Permission
    pub update : Permission
    pub delete : Permission

module _ {Value : Type 0} where
  -- `Permissions::none` and `Permissions::full`
  abbrev pub no_permissions : Permissions Value
  no_permissions = record {
    select = no_permission;
    create = no_permission;
    update = no_permission;
    delete = no_permission;
  }

  abbrev pub full_permissions : Permissions Value
  full_permissions = record {
    select = full_permission;
    create = full_permission;
    update = full_permission;
    delete = full_permission;
  }

  -- `== Permission::None` and `== Permission::Full`
  abbrev pub eq_none : Permission Value → Bool
  eq_none no_permission = true
  eq_none _ = false

  abbrev pub eq_full : Permission Value → Bool
  eq_full full_permission = true
  eq_full _ = false

  unfoldable pub is_none : Permissions Value → Bool
  is_none p = eq_none p.select && eq_none p.create && eq_none p.update && eq_none p.delete

  unfoldable pub is_full : Permissions Value → Bool
  is_full p = eq_full p.select && eq_full p.create && eq_full p.update && eq_full p.delete
