-- ===== src/Schema/Access.antt =====
-- Models UserCompanyAccess, and RolePermission with the code of its Permission.
use advanced_accountancy.Prelude.{String, Option}
use advanced_accountancy.Schema.Units.{Uuid}

pub record UserCompanyAccess : Type 0 where
  pub user_id : Uuid
  pub company_id : Option Uuid
  pub role_id : Uuid

pub record RolePermission : Type 0 where
  pub role_id : Uuid
  pub code : String
