-- ===== src/Banking/Matching.antt =====
-- backend/src/banking/matching-engine.service.ts: the open invoice that a line of a statement fits
-- best. Lower case is that of the 26 letters, and white space that of ASCII.
pub mod Choice
use advanced_accountancy.Prelude.{
  ℕ, ◌+◌, Bool, true, false, ◌&&◌, ◌||◌, Option, none, some, List, [], ◌∷◌, ◌==◌, ltb, leb, length,
  find, find_many, map, if◌then◌else◌,
}
use advanced_accountancy.Prelude.Int.{ℤ, pos, neg, ◌-ℤ◌, abs, ltb_ℤ, leb_ℤ}
use advanced_accountancy.Prelude.Text.{Text}
use advanced_accountancy.Tx.{Tx, gets}
use advanced_accountancy.Schema.{
  Uuid, Cents, SalesInvoice, SupplierInvoice, Party, SuggestedType, customer_receipt,
  supplier_payment, doc_posted, doc_eq, Db,
}

pub record MatchSuggestion : Type 0 where
  pub suggested_type : SuggestedType
  pub suggested_customer_id : Option Uuid
  pub suggested_supplier_id : Option Uuid
  pub suggested_invoice_id : Uuid
  pub confidence_score : ℕ

-- `AMOUNT_MATCH_WEIGHT`
abbrev pub amount_match_weight : ℕ
amount_match_weight = 70

-- `NAME_MATCH_WEIGHT`
abbrev pub name_match_weight : ℕ
name_match_weight = 30

abbrev pub lower : ℕ → ℕ
lower c = if leb 65 c && leb c 90 then c + 32 else c

-- `toLowerCase`
abbrev pub to_lower_case : Text → Text
to_lower_case = map lower

abbrev pub is_space : ℕ → Bool
is_space c = (c == 32) || (leb 9 c && leb c 13)

-- `split(/\s+/)[0]`
unfoldable pub first_word : Text → Text
first_word [] = []
first_word (c ∷ t) = let rest = first_word t in if is_space c then [] else c ∷ rest

unfoldable pub starts_with : Text → Text → Bool
starts_with [] t = true
starts_with (c ∷ w) [] = false
starts_with (c ∷ w) (d ∷ t) = (c == d) && starts_with w t

-- `t.includes(w)`
unfoldable pub includes : Text → Text → Bool
unfolding starts_with
includes w [] = starts_with w []
includes w (d ∷ t) = starts_with w (d ∷ t) || includes w t

-- `nameMentionedIn`
unfoldable pub name_mentioned_in : Text → Text → Bool
unfolding first_word includes
name_mentioned_in description name =
    let word = first_word (to_lower_case name) in
    ltb 2 (length word) && includes word (to_lower_case description)

-- What the loop reads of an invoice.
pub record Candidate : Type 0 where
  pub invoice_id : Uuid
  pub party_id : Uuid
  pub outstanding : Cents
  pub name : Option Text

abbrev pub is_mentioned : Text → Option Text → Bool
is_mentioned description none = false
is_mentioned description (some name) = name_mentioned_in description name

-- The score of an invoice; the tolerance of 0.01 is less than one hundredth.
unfoldable pub score_of : Text → Cents → Candidate → ℕ
score_of description amount c =
    (if abs (c.outstanding -ℤ amount) == 0 then amount_match_weight else 0)
    + (if is_mentioned description c.name then name_match_weight else 0)

pub record Best : Type 0 where
  pub candidate : Candidate
  pub score : ℕ

-- `!best || score > best.score`
abbrev pub beats : ℕ → Option Best → Bool
beats score none = true
beats score (some b) = ltb b.score score

-- One round of the loop.
unfoldable pub consider : Text → Cents → Candidate → Option Best → Option Best
consider description amount c best =
    let score = score_of description amount c in
    if leb_ℤ c.outstanding (pos 0)
    then best
    else if ltb 0 score && beats score best
    then some (record { candidate = c; score = score })
    else best

-- The loop, with the best so far.
unfoldable pub best_of : Text → Cents → Option Best → List Candidate → Option Best
best_of description amount best [] = best
best_of description amount best (c ∷ rest) =
    best_of description amount (consider description amount c best) rest

abbrev pub party_has_id : Uuid → Party → Bool
party_has_id id p = p.id == id

abbrev pub name_of : Option Party → Option Text
name_of none = none
name_of (some p) = some p.name

abbrev pub sales_candidate : List Party → SalesInvoice → Candidate
sales_candidate customers i = record {
  invoice_id = i.id;
  party_id = i.customer_id;
  outstanding = i.total -ℤ i.amount_paid;
  name = name_of (find (party_has_id i.customer_id) customers);
}

abbrev pub supplier_candidate : List Party → SupplierInvoice → Candidate
supplier_candidate suppliers i = record {
  invoice_id = i.id;
  party_id = i.supplier_id;
  outstanding = i.total -ℤ i.amount_paid;
  name = name_of (find (party_has_id i.supplier_id) suppliers);
}

abbrev pub receipt_suggestion : Option Best → Option MatchSuggestion
receipt_suggestion none = none
receipt_suggestion (some b) = some (record {
  suggested_type = customer_receipt;
  suggested_customer_id = some b.candidate.party_id;
  suggested_supplier_id = none;
  suggested_invoice_id = b.candidate.invoice_id;
  confidence_score = b.score;
})

abbrev pub payment_suggestion : Option Best → Option MatchSuggestion
payment_suggestion none = none
payment_suggestion (some b) = some (record {
  suggested_type = supplier_payment;
  suggested_customer_id = none;
  suggested_supplier_id = some b.candidate.party_id;
  suggested_invoice_id = b.candidate.invoice_id;
  confidence_score = b.score;
})

-- The posted invoices of a company.
abbrev pub receivables : Uuid → Db → List Candidate
receivables company_id s =
    map (sales_candidate s.customers)
      (find_many (λ i. (i.company_id == company_id) && doc_eq i.status doc_posted) s.sales_invoices)

abbrev pub payables : Uuid → Db → List Candidate
payables company_id s = map (supplier_candidate s.suppliers) (
    find_many (λ i. (i.company_id == company_id) && doc_eq i.status doc_posted) s.supplier_invoices)

-- `suggestReceipt`
unfoldable pub suggest_receipt : Uuid → Text → Cents → Db → Option MatchSuggestion
unfolding best_of consider
suggest_receipt company_id description amount s =
    receipt_suggestion (best_of description amount none (receivables company_id s))

-- `suggestPayment`
unfoldable pub suggest_payment : Uuid → Text → Cents → Db → Option MatchSuggestion
unfolding best_of consider
suggest_payment company_id description amount s =
    payment_suggestion (best_of description amount none (payables company_id s))

unfoldable pub suggest : Uuid → Text → Cents → Tx Db (Option MatchSuggestion)
suggest company_id description amount = gets (λ s.
    if ltb_ℤ (pos 0) amount
    then suggest_receipt company_id description amount s
    else if ltb_ℤ amount (pos 0)
    then suggest_payment company_id description (neg amount) s
    else none)
