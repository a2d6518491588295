-- ===== src/Accounting/Engine/Resolving.antt =====
-- When a resolver of a rule names an account, and what resolving it then gives.
use advanced_accountancy.Prelude.{
  ◌≡◌, refl, ◌⊎◌, inl, inr, String, true, Option, none, some, List, find, lookup, Option-cases,
}
use advanced_accountancy.Prelude.Int.{is_zero}
use advanced_accountancy.Prelude.Text.{strip_prefix}
use advanced_accountancy.Tx.{ok, err, ◌>>=◌, no_control_account, foreign_override}
use advanced_accountancy.Schema.{Uuid, ChartOfAccount, PostingRuleLine, Db}
use advanced_accountancy.Accounting.Engine.{
  PostEventParams, is_control, is_account, is_some, amount_of, control_account, override_account,
  resolve_override, resolve_by,
}

-- The account that an override names is of the company.
abbrev pub Owned : Uuid → List ChartOfAccount → Option Uuid → Type 0
Owned c chart none = ⊥
Owned c chart (some id) = is_some (find (is_account c id) chart) ≡ true

abbrev pub Overridden : Uuid → List (String × Uuid) → List ChartOfAccount → Option String → Type 0
Overridden c overrides chart none = ⊥
Overridden c overrides chart (some key) = Owned c chart (lookup key overrides)

-- A resolver names an account: by a control type of the chart, or by an override of the event.
abbrev pub Named :
    Uuid → List (String × Uuid) → List ChartOfAccount → Option String → Option String → Type 0
Named c overrides chart (some control) key = is_some (find (is_control c control) chart) ≡ true
Named c overrides chart none key = Overridden c overrides chart key

-- A line of a rule has no amount, or its resolver names an account.
abbrev pub Resolvable : PostEventParams → List ChartOfAccount → PostingRuleLine → Type 0
Resolvable params chart l =
    (is_zero (amount_of params.amounts l.amount_source) ≡ true)
    ⊎ Named params.company_id params.account_overrides chart
        (strip_prefix "CONTROL:" l.account_resolver) (strip_prefix "OVERRIDE:" l.account_resolver)

is_some-find : {A : Type 0} (o : Option A) → is_some o ≡ true → (a : A) × (o ≡ some a)
is_some-find none h = absurd (cc)
is_some-find (some a) h = (a, refl)

some-is_some : {A : Type 0} (o : Option A) (a : A) → o ≡ some a → is_some o ≡ true
some-is_some o a e = rw e refl

module _ (c : Uuid) (overrides : List (String × Uuid)) (s : Db) where
  control_account_lem :
      (k : String)
      → is_some (find (is_control c k) s.chart_of_accounts) ≡ true
      → (id : Uuid) × (control_account c k s ≡ ok (id, s))
  unfolding control_account ◌>>=◌
  control_account_lem k h = let (a, e) = is_some-find _ h in (a.id, rw e refl)

  override_account_lem :
      (o : Option Uuid)
      → Owned c s.chart_of_accounts o
      → (id : Uuid) × (override_account c o s ≡ ok (id, s))
  unfolding override_account ◌>>=◌
  override_account_lem none h = absurd h
  override_account_lem (some id) h = let (a, e) = is_some-find _ h in (a.id, rw e refl)

  resolve_override_lem :
      (key : Option String)
      → Overridden c overrides s.chart_of_accounts key
      → (id : Uuid) × (resolve_override c overrides key s ≡ ok (id, s))
  unfolding resolve_override
  resolve_override_lem none h = absurd h
  resolve_override_lem (some key) h = override_account_lem (lookup key overrides) h

  pub resolve_by_lem :
      (r : String) (control : Option String)
      → Named c overrides s.chart_of_accounts control (strip_prefix "OVERRIDE:" r)
      → (id : Uuid) × (resolve_by c r overrides control s ≡ ok (id, s))
  unfolding resolve_by
  resolve_by_lem r none h = resolve_override_lem (strip_prefix "OVERRIDE:" r) h
  resolve_by_lem r (some k) h = control_account_lem k h

  -- And back: what resolved was named.
  control_account-Named :
      (k : String) (id : Uuid) (t : Db)
      → control_account c k s ≡ ok (id, t)
      → is_some (find (is_control c k) s.chart_of_accounts) ≡ true
  unfolding control_account ◌>>=◌
  control_account-Named k id t h = elim (Option-cases (find (is_control c k) s.chart_of_accounts)) [
    | inl missing ↦
        let refused : control_account c k s ≡ err no_control_account = rw missing refl in cc
    | inr (a, found) ↦ rw found refl
  ]

  override_account-Owned :
      (o : Option Uuid) (id : Uuid) (t : Db)
      → override_account c o s ≡ ok (id, t)
      → Owned c s.chart_of_accounts o
  unfolding override_account ◌>>=◌
  override_account-Owned none id t h = cc
  override_account-Owned (some account) id t h =
      elim (Option-cases (find (is_account c account) s.chart_of_accounts)) [
        | inl missing ↦
            let refused : override_account c (some account) s ≡ err foreign_override =
              rw missing refl in
            cc
        | inr (a, found) ↦ rw found refl
      ]

  resolve_override-Overridden :
      (key : Option String) (id : Uuid) (t : Db)
      → resolve_override c overrides key s ≡ ok (id, t)
      → Overridden c overrides s.chart_of_accounts key
  unfolding resolve_override
  resolve_override-Overridden none id t h = cc
  resolve_override-Overridden (some key) id t h =
      override_account-Owned (lookup key overrides) id t h

  pub resolve_by-Named :
      (r : String) (control : Option String) (id : Uuid) (t : Db)
      → resolve_by c r overrides control s ≡ ok (id, t)
      → Named c overrides s.chart_of_accounts control (strip_prefix "OVERRIDE:" r)
  unfolding resolve_by
  resolve_by-Named r none id t h = resolve_override-Overridden (strip_prefix "OVERRIDE:" r) id t h
  resolve_by-Named r (some k) id t h = control_account-Named k id t h
