-- ===== src/Accounting/Engine/Totals.antt =====
-- What the lines that a rule builds total.
use advanced_accountancy.Prelude.{
  String, ◌≡◌, refl, ap, ◌∙◌, true, List, [], ◌∷◌, arith, sum_by, Bool-cases, inl, inr,
}
use advanced_accountancy.Prelude.Int.{ℤ, pos, ◌+ℤ◌, is_zero, int_laws}
use advanced_accountancy.Tx.Ends.{Ends, Ends-bind, Ends-trivial, Ends-map}
use advanced_accountancy.Schema.{Side, debit, credit, Amount, PostingRuleLine, Db}
use advanced_accountancy.Accounting.Engine.{
  PostEventParams, amount_of, on_debit, on_credit, resolve_account, build_lines, total_debit,
  total_credit,
}

abbrev pub rule_debits : List (String × Amount) → List PostingRuleLine → Amount
rule_debits amounts = sum_by (λ l. on_debit l.side (amount_of amounts l.amount_source))

abbrev pub rule_credits : List (String × Amount) → List PostingRuleLine → Amount
rule_credits amounts = sum_by (λ l. on_credit l.side (amount_of amounts l.amount_source))

zero_side :
    (side : Side) (a : Amount)
    → is_zero a ≡ true
    → (on_debit side a ≡ pos 0) × (on_credit side a ≡ pos 0)
zero_side debit a h = ground arith
zero_side credit a h = ground arith

-- The lines that a rule builds total what the rule gives each side, whatever the accounts.
pub build_lines_total :
    (params : PostEventParams) (ls : List PostingRuleLine) (s : Db)
    → Ends
        (λ inputs t.
          (total_debit inputs ≡ rule_debits params.amounts ls)
          × (total_credit inputs ≡ rule_credits params.amounts ls))
        (build_lines params ls s)
unfolding build_lines
build_lines_total params [] s = (refl, refl)
build_lines_total params (l ∷ ls) s =
    let amount = amount_of params.amounts l.amount_source in
    elim (Bool-cases (is_zero amount)) [
      | inl z ↦ rw z (
          Ends-map _ _ (build_lines params ls s) (build_lines_total params ls s) λ inputs t h.
            let zero = zero_side l.side amount z in
            (h.0 ∙ rw zero.0 (omega int_laws), h.1 ∙ rw zero.1 (omega int_laws)))
      | inr nz ↦ rw nz (
          Ends-bind _ (λ a t. Unit)
            (resolve_account params.company_id l.account_resolver params.account_overrides) _ s
            (Ends-trivial _)
            λ a t _.
              Ends-bind _
                (λ inputs t.
                  (total_debit inputs ≡ rule_debits params.amounts ls)
                  × (total_credit inputs ≡ rule_credits params.amounts ls))
                (build_lines params ls) _ t (build_lines_total params ls t)
                λ inputs u h. (
                  ap (λ (x : ℤ). on_debit l.side amount +ℤ x) h.0,
                  ap (λ (x : ℤ). on_credit l.side amount +ℤ x) h.1,
                ))
    ]
