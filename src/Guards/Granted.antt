-- ===== src/Guards/Granted.antt =====
-- backend/src/common/guards/permissions.guard.ts: just who passes the guard.
use mathlib.Core.Path.{subst}
use advanced_accountancy.Prelude.{
  ℕ, eq→≡, eq_self, String, Bool, true, ◌&&◌, ◌≡◌, ◌↔◌, refl, sym, ◌∙◌, some, List, ◌∷◌, ◌==◌,
  arith, In,
}
use advanced_accountancy.Tx.{ok, ◌>>=◌}
use advanced_accountancy.Tx.Ends.{Ends, Ends→, Ends-gets, Ends-or_throw, Ends-throw_if}
use advanced_accountancy.Accounting.Engine.Update.{true_of_not}
use advanced_accountancy.Schema.{Uuid, Db}
use advanced_accountancy.Guards.{
  HttpRequest, resolve_company_id, is_granted, check_codes, can_activate,
}
use advanced_accountancy.Guards.Codes.{
  in_scope-Covers, Covers-in_scope, Granted, In-find_many, find_many-In, codes-In, In-codes,
  some_granted-In, In-some_granted,
}

check_codes-Ends :
    (required : List String) (request : HttpRequest) (user_id : Uuid) (s : Db)
    → request.user_id ≡ some user_id
    → Ends
        (λ b t. Granted user_id (resolve_company_id request) required s)
        (check_codes required request s)
unfolding check_codes
check_codes-Ends required request user_id s user = Ends-or_throw _ _ _ _ s λ found_id found.
    Ends-gets _ _ _ s (
      Ends-throw_if _ _ _ _ s λ granted.
        let same : found_id ≡ user_id = some-same found_id user_id (sym found ∙ user) in
        let (c, asked, held) = some_granted-In required _ (true_of_not _ granted) in
        let (a, listed, (p, permitted, role, e)) = In-codes s.role_permissions _ c held in
        let (access_listed, matches) =
          find_many-In (is_granted found_id (resolve_company_id request)) a s.user_company_access
            listed in
        record {
          access = a;
          listed = access_listed;
          of_user = fst_eq a.user_id found_id _ matches ∙ same;
          scope =
              in_scope-Covers (resolve_company_id request) a.company_id
                (snd_true (a.user_id == found_id) _ matches);
          permission = p;
          permitted = permitted;
          same_role = eq→≡ p.role_id a.role_id role;
          required_code = subst (λ x. In x required) (sym e) asked;
        })
  where
    some-same : (a b : ℕ) → some a ≡ some b → a ≡ b
    some-same a b h = ground arith

    fst_eq : (a b : ℕ) (x : Bool) → (a == b) && x ≡ true → a ≡ b
    fst_eq a b x h = ground arith

    snd_true : (x y : Bool) → x && y ≡ true → y ≡ true
    snd_true x y h = ground arith

Granted→commits :
    (required : List String) (request : HttpRequest) (user_id : Uuid) (s : Db)
    → request.user_id ≡ some user_id
    → Granted user_id (resolve_company_id request) required s
    → check_codes required request s ≡ ok (true, s)
unfolding check_codes resolve_company_id ◌>>=◌
Granted→commits required request user_id s user g =
    let listed =
      In-find_many (is_granted user_id (resolve_company_id request)) g.access s.user_company_access
        g.listed
        (both g.access.user_id user_id _ g.of_user
          (Covers-in_scope (resolve_company_id request) g.access.company_id g.scope)) in
    let held =
      codes-In s.role_permissions _ g.access g.permission listed g.permitted
        (rw g.same_role (eq_self g.access.role_id)) in
    let passes = In-some_granted required _ g.permission.code g.required_code held in
    rw user (rw passes refl)
  where
    both : (a b : ℕ) (x : Bool) → a ≡ b → x ≡ true → (a == b) && x ≡ true
    both a b x e h = ground arith

-- Where a route requires at least one code and the request has a user, the guard lets the
-- request pass just when the user has an access, for the whole tenant or for the company that
-- the request names, whose role has a permission with one of the codes.
pub can_activate_lem :
    (c : String) (codes : List String) (request : HttpRequest) (user_id : Uuid) (s : Db)
    → request.user_id ≡ some user_id
    → (can_activate (some (c ∷ codes)) request s ≡ ok (true, s))
      ↔ Granted user_id (resolve_company_id request) (c ∷ codes) s
unfolding can_activate
can_activate_lem c codes request user_id s user = (
  (λ e.
      Ends→ _ (check_codes (c ∷ codes) request s) true s e
        (check_codes-Ends (c ∷ codes) request user_id s user)),
  Granted→commits (c ∷ codes) request user_id s user,
)
