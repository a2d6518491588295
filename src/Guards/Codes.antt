-- ===== src/Guards/Codes.antt =====
-- backend/src/common/guards/permissions.guard.ts: what the searches for a code find.
use advanced_accountancy.Prelude.{ap, none}
use advanced_accountancy.Prelude.{
  eq→≡, eq_self, String, Bool, true, false, ◌≡◌, ◌⊎◌, refl, inl, inr, Option, some, List, [], ◌∷◌,
  ◌++◌, arith, find_many, map, str_eq, eq_iff, In, first, later, Bool-cases, if◌then◌else◌,
}
use advanced_accountancy.Schema.{Uuid, UserCompanyAccess, RolePermission, Db}
use advanced_accountancy.Guards.{in_scope, of_role, granted_codes, has_code, some_granted}

-- An access of the whole tenant, or of the very company.
abbrev pub Covers : Option Uuid → Option Uuid → Type 0
Covers scope company_id =
    (scope ≡ none) ⊎ ((id : Uuid) × (scope ≡ some id) × (company_id ≡ some id))

pub in_scope-Covers :
    (company_id scope : Option Uuid) → in_scope company_id scope ≡ true → Covers scope company_id
unfolding in_scope
in_scope-Covers company_id none h = inl refl
in_scope-Covers none (some c) h = absurd (ground arith)
in_scope-Covers (some id) (some c) h = inr (id, ap some (eq→≡ c id h), refl)

pub Covers-in_scope :
    (company_id scope : Option Uuid) → Covers scope company_id → in_scope company_id scope ≡ true
unfolding in_scope
Covers-in_scope company_id scope (inl e) = rw e refl
Covers-in_scope company_id scope (inr (id, e, f)) = rw (e, f) (eq_self id)

-- A grant: an access of the user, for the whole tenant or for the company, whose role has a
-- permission with a required code.
pub record Granted (user_id : Uuid) (company_id : Option Uuid) (required : List String) (s : Db)
    : Type 0 where
  pub access : UserCompanyAccess
  pub listed : In access s.user_company_access
  pub of_user : access.user_id ≡ user_id
  pub scope : Covers access.company_id company_id
  pub permission : RolePermission
  pub permitted : In permission s.role_permissions
  pub same_role : permission.role_id ≡ access.role_id
  pub required_code : In permission.code required

module _ {A : Type 0} (p : A → Bool) where
  pub In-find_many : (a : A) (xs : List A) → In a xs → p a ≡ true → In a (find_many p xs)
  In-find_many a [] i h = elim i [ ]
  In-find_many a (x ∷ xs) first h = rw h first
  In-find_many a (x ∷ xs) (later i) h = elim (Bool-cases (p x)) [
    | inl on ↦ rw on (later (In-find_many a xs i h))
    | inr off ↦ rw off (In-find_many a xs i h)
  ]

  kept_step :
      (a x : A) (xs rest : List A) (b : Bool)
      → p x ≡ b
      → (In a rest → In a xs × (p a ≡ true))
      → In a (if b then x ∷ rest else rest)
      → In a (x ∷ xs) × (p a ≡ true)
  kept_step a _ xs rest true e k first = (first, e)
  kept_step a x xs rest true e k (later i) = (later (k i).0, (k i).1)
  kept_step a x xs rest false e k i = (later (k i).0, (k i).1)

  pub find_many-In : (a : A) (xs : List A) → In a (find_many p xs) → In a xs × (p a ≡ true)
  find_many-In a [] i = elim i [ ]
  find_many-In a (x ∷ xs) i = kept_step a x xs (find_many p xs) (p x) refl (find_many-In a xs) i

In-map : {A : Type 0} (f : A → String) (a : A) (xs : List A) → In a xs → In (f a) (map f xs)
In-map f a [] i = elim i [ ]
In-map f a (x ∷ xs) first = first
In-map f a (x ∷ xs) (later i) = later (In-map f a xs i)

In-append_left : (c : String) (xs ys : List String) → In c xs → In c (xs ++ ys)
In-append_left c [] ys i = elim i [ ]
In-append_left c (x ∷ xs) ys first = first
In-append_left c (x ∷ xs) ys (later i) = later (In-append_left c xs ys i)

In-append_right : (c : String) (xs ys : List String) → In c ys → In c (xs ++ ys)
In-append_right c [] ys i = i
In-append_right c (x ∷ xs) ys i = later (In-append_right c xs ys i)

-- The other way: where a code of the list comes from.
In-append_cases : (c : String) (xs ys : List String) → In c (xs ++ ys) → In c xs ⊎ In c ys
In-append_cases c [] ys i = inr i
In-append_cases c (x ∷ xs) ys first = inl first
In-append_cases c (x ∷ xs) ys (later i) = elim (In-append_cases c xs ys i) [
  | inl l ↦ inl (later l)
  | inr r ↦ inr r
]

from_map :
    (c : String) (ps : List RolePermission)
    → In c (map (λ p. p.code) ps)
    → (p : RolePermission) × In p ps × (p.code ≡ c)
from_map c [] i = elim i [ ]
from_map c (p ∷ ps) first = (p, first, refl)
from_map c (p ∷ ps) (later i) = let (q, k, e) = from_map c ps i in (q, later k, e)

module _ (permissions : List RolePermission) where
  pub codes-In :
      (accesses : List UserCompanyAccess) (a : UserCompanyAccess) (p : RolePermission)
      → In a accesses
      → In p permissions
      → of_role a.role_id p ≡ true
      → In p.code (granted_codes permissions accesses)
  unfolding granted_codes
  codes-In [] a p i k h = elim i [ ]
  codes-In (b ∷ accesses) a p first k h =
      In-append_left p.code _ (granted_codes permissions accesses)
        (In-map (λ q. q.code) p _ (In-find_many (of_role a.role_id) p permissions k h))
  codes-In (b ∷ accesses) a p (later i) k h =
      In-append_right p.code (map (λ q. q.code) (find_many (of_role b.role_id) permissions))
        (granted_codes permissions accesses) (codes-In accesses a p i k h)

  pub In-codes :
      (accesses : List UserCompanyAccess) (c : String)
      → In c (granted_codes permissions accesses)
      → (a : UserCompanyAccess) × In a accesses
        × ((p : RolePermission) × In p permissions × (of_role a.role_id p ≡ true) × (p.code ≡ c))
  unfolding granted_codes
  In-codes [] c i = elim i [ ]
  In-codes (a ∷ accesses) c i =
      elim (In-append_cases c (map (λ q. q.code) (find_many (of_role a.role_id) permissions))
        (granted_codes permissions accesses) i) [
          | inl here ↦
              let (p, k, e) = from_map c (find_many (of_role a.role_id) permissions) here in
              let (m, h) = find_many-In (of_role a.role_id) p permissions k in
              (a, first, (p, m, h, e))
          | inr there ↦ let (b, m, rest) = In-codes accesses c there in (b, later m, rest)
        ]

has_code-In : (codes : List String) (c : String) → has_code codes c ≡ true → In c codes
unfolding has_code
has_code-In [] c h = absurd (ground arith)
has_code-In (d ∷ codes) c h = elim (Bool-cases (str_eq d c)) [
  | inl same ↦ go ((eq_iff d c).0 same)
  | inr other ↦ later (has_code-In codes c (ground (arith, other, h)))
]
  where
    go : d ≡ c → In c (d ∷ codes)
    go e = rw (← e) first

In-has_code : (codes : List String) (c : String) → In c codes → has_code codes c ≡ true
unfolding has_code
In-has_code [] c i = elim i [ ]
In-has_code (d ∷ codes) _ first = rw ((eq_iff d d).1 refl) refl
In-has_code (d ∷ codes) c (later i) = ground (arith, In-has_code codes c i)

pub some_granted-In :
    (required codes : List String)
    → some_granted required codes ≡ true
    → (c : String) × In c required × In c codes
unfolding some_granted
some_granted-In [] codes h = absurd (ground arith)
some_granted-In (c ∷ required) codes h = elim (Bool-cases (has_code codes c)) [
  | inl here ↦ (c, first, has_code-In codes c here)
  | inr there ↦
      let (d, k, m) = some_granted-In required codes (ground (arith, there, h)) in (d, later k, m)
]

pub In-some_granted :
    (required codes : List String) (c : String)
    → In c required
    → In c codes
    → some_granted required codes ≡ true
unfolding some_granted
In-some_granted [] codes c i k = elim i [ ]
In-some_granted (d ∷ required) codes _ first k = rw (In-has_code codes d k) refl
In-some_granted (d ∷ required) codes c (later i) k =
    ground (arith, In-some_granted required codes c i k)
