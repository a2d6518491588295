-- ===== src/Tests/Guards.antt =====
-- A sales clerk of company 1, at a route of sales.
use advanced_accountancy.Prelude.{true, ◌≡◌, ◌↔◌, refl, none, some, [], ◌∷◌}
use advanced_accountancy.Tx.{ok, err, forbidden, ◌>>=◌}
use advanced_accountancy.Schema.{Db, empty_db}
use advanced_accountancy.Guards.{
  HttpRequest, resolve_company_id, in_scope, granted_codes, has_code, some_granted, check_codes,
  can_activate,
}
use advanced_accountancy.Guards.Codes.{Granted}
use advanced_accountancy.Guards.Granted.{can_activate_lem}

abbrev access_db : Db
access_db = record empty_db {
  user_company_access = record { user_id = 5; company_id = some 1; role_id = 7 } ∷ [];
  role_permissions = record { role_id = 7; code = "sales.manage" } ∷ [];
}

abbrev to_company : HttpRequest
to_company = record {
  user_id = some 5;
  params_company_id = none;
  body_company_id = some 1;
  query_company_id = none;
  params_id = none;
}

guard_runs : Unit {0}
unfolding can_activate check_codes resolve_company_id in_scope granted_codes has_code some_granted
    ◌>>=◌
guard_runs = tt

passes : can_activate (some ("sales.manage" ∷ [])) to_company access_db ≡ ok (true, access_db)
unfolding guard_runs
passes = refl

refused :
    can_activate
      (some ("sales.manage" ∷ []))
      (record to_company { body_company_id = some 2 })
      access_db
    ≡ err forbidden
unfolding guard_runs
refused = refl

can_activate_lem_example :
    (can_activate (some ("sales.manage" ∷ [])) to_company access_db ≡ ok (true, access_db))
    ↔ Granted 5 (resolve_company_id to_company) ("sales.manage" ∷ []) access_db
can_activate_lem_example = can_activate_lem "sales.manage" [] to_company 5 access_db refl
