-- ===== src/Guards.antt =====
-- backend/src/common/guards/permissions.guard.ts: whether a request's user holds one of the codes
-- that a route requires.
pub mod Codes
pub mod Granted
use advanced_accountancy.Prelude.{
  String, Bool, true, false, not, ◌&&◌, ◌||◌, Option, none, some, List, [], ◌∷◌, ◌++◌, ◌==◌, opt_eq,
  find_many, map, str_eq, if◌then◌else◌,
}
use advanced_accountancy.Tx.{
  Tx, pure, gets, or_throw, throw_if, ◌>>=◌, ◌>>◌, forbidden, not_authenticated,
}
use advanced_accountancy.Schema.{Uuid, UserCompanyAccess, RolePermission, Db}

-- What the guard reads of a request; `none` is undefined, null or the empty string.
pub record HttpRequest : Type 0 where
  pub user_id : Option Uuid
  pub params_company_id : Option Uuid
  pub body_company_id : Option Uuid
  pub query_company_id : Option Uuid
  pub params_id : Option Uuid

-- `a || b`
abbrev pub or_else : Option Uuid → Option Uuid → Option Uuid
or_else none b = b
or_else (some a) b = some a

-- `resolveCompanyId`
unfoldable pub resolve_company_id : HttpRequest → Option Uuid
resolve_company_id r =
    or_else r.params_company_id (or_else r.body_company_id (or_else r.query_company_id r.params_id))

-- `OR: [{ companyId: null }, ...(companyId ? [{ companyId }] : [])]`
unfoldable pub in_scope : Option Uuid → Option Uuid → Bool
in_scope company_id none = true
in_scope none (some c) = false
in_scope (some id) (some c) = c == id

abbrev pub is_granted : Uuid → Option Uuid → UserCompanyAccess → Bool
is_granted user_id company_id a = (a.user_id == user_id) && in_scope company_id a.company_id

abbrev pub of_role : Uuid → RolePermission → Bool
of_role role_id p = p.role_id == role_id

-- `granted.flatMap((access) => access.role.rolePermissions.map((rp) => rp.permission.code))`
unfoldable pub granted_codes : List RolePermission → List UserCompanyAccess → List String
granted_codes permissions [] = []
granted_codes permissions (a ∷ rest) =
    map (λ p. p.code) (find_many (of_role a.role_id) permissions) ++ granted_codes permissions rest

-- `grantedCodes.has(code)`
unfoldable pub has_code : List String → String → Bool
has_code [] code = false
has_code (c ∷ codes) code = str_eq c code || has_code codes code

-- `required.some((code) => grantedCodes.has(code))`
unfoldable pub some_granted : List String → List String → Bool
unfolding has_code
some_granted [] codes = false
some_granted (c ∷ required) codes = has_code codes c || some_granted required codes

-- `canActivate`, behind the test of what is required.
unfoldable pub check_codes : List String → HttpRequest → Tx Db Bool
check_codes required request = do
  user_id ← or_throw request.user_id not_authenticated
  let company_id = resolve_company_id request
  codes ← gets (λ s.
      granted_codes s.role_permissions
        (find_many (is_granted user_id company_id) s.user_company_access))
  throw_if (not (some_granted required codes)) forbidden
  pure true

-- `canActivate`
unfoldable pub can_activate : Option (List String) → HttpRequest → Tx Db Bool
can_activate none request = pure true
can_activate (some []) request = pure true
can_activate (some (c ∷ required)) request = check_codes (c ∷ required) request
