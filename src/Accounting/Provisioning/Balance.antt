-- ===== src/Accounting/Provisioning/Balance.antt =====
-- The starter rules balance: what an event adds to the debits it adds to the credits.
use mathlib.Core.Path.{subst}
use advanced_accountancy.Prelude.{
  String, ◌≡◌, sym, ap, ◌∙◌, some, List, [], ◌∷◌, find, sort_by, All, In, first, later,
}
use advanced_accountancy.Prelude.Int.{ℤ, pos, ◌+ℤ◌, int_laws}
use advanced_accountancy.Tx.{ok}
use advanced_accountancy.Tx.Ends.{Ends→}
use advanced_accountancy.Schema.{
  Cents, to_cents, Amount, PostingRule, PostingRuleLine, JournalEntry, Db, from_cents,
}
use advanced_accountancy.Schema.Rounding.{to_cents-from_cents}
use advanced_accountancy.Accounting.Engine.Origin.{post_event-Origin}
use advanced_accountancy.Accounting.Engine.Balance.{
  AreWhole, entry_debits, entry_credits, stored_totals,
}
use advanced_accountancy.Accounting.Engine.{
  PostEventParams, is_rule, amount_of, build_lines, total_debit, total_credit, post_event,
}
use advanced_accountancy.Accounting.Engine.Totals.{rule_debits, rule_credits, build_lines_total}
use advanced_accountancy.Accounting.Provisioning.{StarterPostingRule, starter_posting_rules}

-- The identities between the amounts of an event that the callers keep.
abbrev pub TotalsAgree : List (String × Amount) → Type 0
TotalsAgree amounts =
    (amount_of amounts "total" ≡ amount_of amounts "subtotal" +ℤ amount_of amounts "taxAmount")
    × (amount_of amounts "totalGross"
        ≡ amount_of amounts "totalNet" +ℤ amount_of amounts "totalDeductions")

abbrev pub Balances : List (String × Amount) → List PostingRuleLine → Type 0
Balances amounts lines =
    rule_debits amounts (sort_by (λ l. l.line_no) lines)
    ≡ rule_credits amounts (sort_by (λ l. l.line_no) lines)

two_line : (a : ℤ) → a +ℤ (pos 0 +ℤ pos 0) ≡ pos 0 +ℤ (a +ℤ pos 0)
two_line a = omega int_laws

one_to_two :
    (t a b : ℤ) → t ≡ a +ℤ b → t +ℤ (pos 0 +ℤ (pos 0 +ℤ pos 0)) ≡ pos 0 +ℤ (a +ℤ (b +ℤ pos 0))
one_to_two t a b e = rw e (omega int_laws)

two_to_one :
    (t a b : ℤ) → t ≡ a +ℤ b → a +ℤ (b +ℤ (pos 0 +ℤ pos 0)) ≡ pos 0 +ℤ (pos 0 +ℤ (t +ℤ pos 0))
two_to_one t a b e = rw e (omega int_laws)

two_pairs :
    (a b : ℤ) → a +ℤ (pos 0 +ℤ (b +ℤ (pos 0 +ℤ pos 0))) ≡ pos 0 +ℤ (a +ℤ (pos 0 +ℤ (b +ℤ pos 0)))
two_pairs a b = omega int_laws

-- Every starter rule balances.
pub starter_posting_rules-Balances :
    (amounts : List (String × Amount))
    → TotalsAgree amounts
    → All (λ (r : StarterPostingRule). Balances amounts r.lines) starter_posting_rules
starter_posting_rules-Balances amounts (sales, payroll) = (
  one_to_two _ _ _ sales,
  (
    two_to_one _ _ _ sales,
    (
      two_line _,
      (
        two_line _,
        (
          two_line _,
          (two_line _, (two_line _, (one_to_two _ _ _ payroll, (two_line _, (two_pairs _ _, tt))))),
        ),
      ),
    ),
  ),
)

from_cents-injective : (a b : Cents) → from_cents a ≡ from_cents b → a ≡ b
from_cents-injective a b h = sym (to_cents-from_cents a) ∙ ap to_cents h ∙ to_cents-from_cents b

-- Of an event whose amounts are whole hundredths, whose rule's lines balance on those amounts, and
-- which posts, the stored debits of the entry equal its stored credits.
pub balanced_rule_exact :
    (params : PostEventParams) (s t : Db) (e : JournalEntry) (rule : PostingRule)
    → AreWhole params.amounts
    → find (is_rule params.company_id params.event_type) s.posting_rules ≡ some rule
    → Balances params.amounts rule.lines
    → post_event params s ≡ ok (e, t)
    → entry_debits e ≡ entry_credits e
balanced_rule_exact params s t e rule w found b p =
    let o = post_event-Origin params s t e p in
    let same : o.rule ≡ rule = cc (o.rule_found, found) in
    let totals =
      Ends→ _ (build_lines params _ s) o.inputs s o.built (build_lines_total params _ s) in
    let inputs_balance : total_debit o.inputs ≡ total_credit o.inputs =
      totals.0
      ∙ subst (λ (r : PostingRule). Balances params.amounts r.lines) (sym same) b
      ∙ sym totals.1 in
    let stored = stored_totals params s e o w in
    from_cents-injective _ _ (sym stored.0 ∙ inputs_balance ∙ stored.1)

-- A rule whose lines are those of a starter rule.
pub record FollowsStarter (rule : PostingRule) : Type 0 where
  pub template : StarterPostingRule
  pub listed : In template starter_posting_rules
  pub same : rule.lines ≡ template.lines

In-Balances :
    (amounts : List (String × Amount)) (rs : List StarterPostingRule) (r : StarterPostingRule)
    → In r rs
    → All (λ (r : StarterPostingRule). Balances amounts r.lines) rs
    → Balances amounts r.lines
In-Balances amounts [] r i h = elim i [ ]
In-Balances amounts (x ∷ rs) _ first h = h.0
In-Balances amounts (x ∷ rs) r (later i) h = In-Balances amounts rs r i h.1

-- Under a starter rule, an event that posts with amounts that are whole hundredths, where the total
-- is the subtotal and the tax and the gross pay is the net pay and the deductions, has an entry whose
-- stored debits equal its stored credits.
pub starter_rule_exact :
    (params : PostEventParams) (s t : Db) (e : JournalEntry) (rule : PostingRule)
    → AreWhole params.amounts
    → TotalsAgree params.amounts
    → find (is_rule params.company_id params.event_type) s.posting_rules ≡ some rule
    → FollowsStarter rule
    → post_event params s ≡ ok (e, t)
    → entry_debits e ≡ entry_credits e
starter_rule_exact params s t e rule w agree found f p =
    balanced_rule_exact params s t e rule w found
      (subst (Balances params.amounts) (sym f.same) (
        In-Balances params.amounts starter_posting_rules f.template f.listed
          (starter_posting_rules-Balances params.amounts agree)))
      p
