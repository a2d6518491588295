-- ===== src/Accounting/TaxRates.antt =====
-- backend/src/accounting/tax-rate.util.ts: the rate of a tax code on a day.
use mathlib.Core.Path.{subst}
use advanced_accountancy.Prelude.{
  ◌≡◌, ◌≢◌, refl, sym, ◌∙◌, ◌⊎◌, inl, inr, Bool, true, false, ◌&&◌, Option, none, some, List, [],
  ◌∷◌, ◌≤◌, ◌==◌, ltb, leb, if◌then◌else◌, arith, All, In, first, later, Bool-cases, Option-cases,
}
use advanced_accountancy.Prelude.Int.{ℤ, pos}
use advanced_accountancy.Tx.{Tx, ok, pure, gets}
use advanced_accountancy.Schema.{Uuid, Day, TaxRate, Db}

abbrev not_ended : Option Day → Day → Bool
not_ended none as_of_date = true
not_ended (some effective_to) as_of_date = leb as_of_date effective_to

-- The `where` of the search.
unfoldable pub in_effect : Uuid → Day → TaxRate → Bool
in_effect tax_code_id as_of_date r =
    (r.tax_code_id == tax_code_id)
    && leb r.effective_from as_of_date
    && not_ended r.effective_to as_of_date

abbrev later_rate : TaxRate → Option TaxRate → Option TaxRate
later_rate r none = some r
later_rate r (some q) = if ltb r.effective_from q.effective_from then some q else some r

-- `findFirst` with the latest `effectiveFrom` first.
unfoldable pub latest_rate : Uuid → Day → List TaxRate → Option TaxRate
latest_rate tax_code_id as_of_date [] = none
latest_rate tax_code_id as_of_date (r ∷ rest) =
    let latest = latest_rate tax_code_id as_of_date rest in
    if in_effect tax_code_id as_of_date r then later_rate r latest else latest

abbrev rate_or_zero : Option TaxRate → ℤ
rate_or_zero none = pos 0
rate_or_zero (some r) = r.rate_percent

unfoldable pub current_tax_rate_percent : Option Uuid → Day → Tx Db ℤ
current_tax_rate_percent none as_of_date = pure (pos 0)
current_tax_rate_percent (some tax_code_id) as_of_date =
    gets (λ s. rate_or_zero (latest_rate tax_code_id as_of_date s.tax_rates))

module _ (tax_code_id : Uuid) (as_of_date : Day) where
  -- No rate of the table is in effect.
  abbrev pub Untaxed : List TaxRate → Type 0
  Untaxed = All (λ q. in_effect tax_code_id as_of_date q ≡ false)

  -- A rate that is in effect, and none that is in effect begins later.
  pub record InEffect (r : TaxRate) (rates : List TaxRate) : Type 0 where
    pub stored : In r rates
    pub effective : in_effect tax_code_id as_of_date r ≡ true
    pub latest :
        All
          (λ q. in_effect tax_code_id as_of_date q ≡ true → q.effective_from ≤ r.effective_from)
          rates

  true-not_false : true ≢ false
  true-not_false e = ground arith

  -- What the search finds.
  abbrev pub Searched : Option TaxRate → List TaxRate → Type 0
  Searched none rates = Untaxed rates
  Searched (some r) rates = InEffect r rates

  no_later :
      (r : TaxRate) (rates : List TaxRate)
      → Untaxed rates
      → All
          (λ q. in_effect tax_code_id as_of_date q ≡ true → q.effective_from ≤ r.effective_from)
          rates
  no_later r [] u = tt
  no_later r (q ∷ rates) u = (λ e. absurd (true-not_false (sym e ∙ u.0)), no_later r rates u.1)

  earlier_than :
      (r q : TaxRate) (rates : List TaxRate)
      → r.effective_from ≤ q.effective_from
      → All
          (λ x. in_effect tax_code_id as_of_date x ≡ true → x.effective_from ≤ r.effective_from)
          rates
      → All
          (λ x. in_effect tax_code_id as_of_date x ≡ true → x.effective_from ≤ q.effective_from)
          rates
  earlier_than r q [] le h = tt
  earlier_than r q (x ∷ rates) le h =
      (λ e. let k = h.0 e in omega arith, earlier_than r q rates le h.1)

  Searched-front :
      (r : TaxRate) (o : Option TaxRate) (rest : List TaxRate)
      → in_effect tax_code_id as_of_date r ≡ true
      → Searched o rest
      → Searched (later_rate r o) (r ∷ rest)
  Searched-front r none rest e h = record {
    stored = first;
    effective = e;
    latest = (λ _. omega arith, no_later r rest h);
  }
  Searched-front r (some q) rest e h = elim (Bool-cases (ltb r.effective_from q.effective_from)) [
    | inl lt ↦ rw lt (record {
      stored = later h.stored;
      effective = h.effective;
      latest = (λ _. ground arith, h.latest);
    })
    | inr ge ↦ rw ge (record {
      stored = first;
      effective = e;
      latest = (λ _. omega arith, earlier_than q r rest (ground arith) h.latest);
    })
  ]

  Searched-behind :
      (r : TaxRate) (o : Option TaxRate) (rest : List TaxRate)
      → in_effect tax_code_id as_of_date r ≡ false
      → Searched o rest
      → Searched o (r ∷ rest)
  Searched-behind r none rest e h = (e, h)
  Searched-behind r (some q) rest e h = record {
    stored = later h.stored;
    effective = h.effective;
    latest = (λ k. absurd (true-not_false (sym k ∙ e)), h.latest);
  }

  latest_rate-Searched :
      (rates : List TaxRate) → Searched (latest_rate tax_code_id as_of_date rates) rates
  unfolding latest_rate
  latest_rate-Searched [] = tt
  latest_rate-Searched (r ∷ rest) =
      let ih = latest_rate-Searched rest in
      elim (Bool-cases (in_effect tax_code_id as_of_date r)) [
        | inl runs ↦
            rw runs (Searched-front r (latest_rate tax_code_id as_of_date rest) rest runs ih)
        | inr idle ↦
            rw idle (Searched-behind r (latest_rate tax_code_id as_of_date rest) rest idle ih)
      ]

-- The percentage of a tax code on a day is that of a stored rate that is in effect and no rate in
-- effect begins later, or 0 where no rate of the code is in effect; finding it changes nothing.
pub current_tax_rate_percent-Searched :
    (tax_code_id : Uuid) (as_of_date : Day) (s : Db)
    → ((r : TaxRate) × InEffect tax_code_id as_of_date r s.tax_rates
        × (current_tax_rate_percent (some tax_code_id) as_of_date s ≡ ok (r.rate_percent, s)))
      ⊎ (Untaxed tax_code_id as_of_date s.tax_rates
          × (current_tax_rate_percent (some tax_code_id) as_of_date s ≡ ok (pos 0, s)))
unfolding current_tax_rate_percent
current_tax_rate_percent-Searched tax_code_id as_of_date s =
    let found = latest_rate-Searched tax_code_id as_of_date s.tax_rates in
    elim (Option-cases (latest_rate tax_code_id as_of_date s.tax_rates)) [
      | inl nothing ↦ inr (
        subst (λ (o : Option TaxRate). Searched tax_code_id as_of_date o s.tax_rates) nothing found,
        rw nothing refl,
      )
      | inr (r, e) ↦ inl (
        r,
        subst (λ (o : Option TaxRate). Searched tax_code_id as_of_date o s.tax_rates) e found,
        rw e refl,
      )
    ]
