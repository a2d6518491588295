-- ===== src/Accounting/Engine/Origin.antt =====
-- What an event that posts had: an active rule, an open period that covers the date, and the lines of
-- its entry.
use advanced_accountancy.Prelude.{◌≡◌, refl, ap, ◌∙◌, true, false, some, List, find, sort_by, ltb}
use advanced_accountancy.Prelude.Int.{◌-ℤ◌, abs}
use advanced_accountancy.Prelude.Text.{Text}
use advanced_accountancy.Tx.{ok, ◌>>=◌}
use advanced_accountancy.Tx.Ends.{
  Ends, Ends→, Ends-intro, Ends-bind, Ends-gets, Ends-or_throw, Ends-throw_if, Ends-trivial,
  Ends-map,
}
use advanced_accountancy.Schema.{
  Uuid, Day, JournalEntry, AccountingPeriod, is_open, PostingRule, PostingRuleLine, Db,
}
use advanced_accountancy.Accounting.Numbering.Sequence.{next-Keeps}
use advanced_accountancy.Accounting.Engine.{
  PostEventParams, LineInput, balance_tolerance, is_rule, covers, build_lines, total_debit,
  total_credit, event_entry, create_entry, record_event, post_event,
}
use advanced_accountancy.Accounting.Engine.Update.{true_of_not}
use advanced_accountancy.Accounting.Engine.Post.{build_lines-Keeps}

-- Where an entry that an event posted came from.
pub record Origin (params : PostEventParams) (s : Db) (e : JournalEntry) : Type 0 where
  pub rule : PostingRule
  pub rule_found : find (is_rule params.company_id params.event_type) s.posting_rules ≡ some rule
  pub rule_active : rule.is_active ≡ true
  pub period : AccountingPeriod
  pub period_found :
      find (covers s.fiscal_years params.company_id params.entry_date) s.accounting_periods
      ≡ some period
  pub period_open : is_open period.status ≡ true
  pub inputs : List LineInput
  pub built : build_lines params (sort_by (λ l. l.line_no) rule.lines) s ≡ ok (inputs, s)
  pub within : ltb balance_tolerance (abs (total_debit inputs -ℤ total_credit inputs)) ≡ false
  pub entry_number : Text
  pub id : Uuid
  pub entry : e ≡ event_entry params period.id rule.id entry_number inputs s.now id

create_entry-Ends :
    (make : Uuid → JournalEntry) (s : Db)
    → Ends (λ e t. (i : Uuid) × (e ≡ make i)) (create_entry make s)
unfolding create_entry ◌>>=◌
create_entry-Ends make s = (s.next_id, refl)

record_event-Ends :
    (params : PostEventParams) (period : AccountingPeriod) (rule : PostingRule)
    (inputs : List LineInput) (s : Db)
    → Ends
        (λ e t.
          (n : Text) × (i : Uuid) × (e ≡ event_entry params period.id rule.id n inputs s.now i))
        (record_event params period rule inputs s)
unfolding record_event
record_event-Ends params period rule inputs s =
    Ends-bind _ (λ n t. t.now ≡ s.now) _ _ s
      (Ends-intro _ _
        (λ n t e. (next-Keeps {P = λ x. x.now ≡ s.now} _ _ _ (λ x q i h. h)).at s refl n t e))
      λ n t same. Ends-gets _ _ _ t (
        Ends-bind _
          (λ e u. (i : Uuid) × (e ≡ event_entry params period.id rule.id n inputs t.now i)) _ _ t
          (create_entry-Ends _ t)
          λ e u made.
            Ends-bind _ (λ x y. Unit) _ _ u (Ends-trivial _)
              (λ x y z. (
                n,
                made.0,
                made.1
                    ∙ ap (λ (d : Day). event_entry params period.id rule.id n inputs d made.0) same,
              )))

build_lines_reads :
    (params : PostEventParams) (ls : List PostingRuleLine) (s : Db)
    → Ends
        (λ inputs t. (t ≡ s) × (build_lines params ls s ≡ ok (inputs, s)))
        (build_lines params ls s)
build_lines_reads params ls s = Ends-intro _ (build_lines params ls s) λ inputs t e.
    let same : t ≡ s = (build_lines-Keeps {P = λ x. x ≡ s} params ls).at s refl inputs t e in
    (same, e ∙ ap (λ (x : Db). ok (inputs, x)) same)

post_event-Ends :
    (params : PostEventParams) (s : Db) → Ends (λ e t. Origin params s e) (post_event params s)
unfolding post_event
post_event-Ends params s = Ends-gets _ _ _ s (
    Ends-or_throw _ _ _ _ s λ rule rule_found. Ends-throw_if _ _ _ _ s λ active. Ends-gets _ _ _ s (
      Ends-or_throw _ _ _ _ s λ period period_found. Ends-throw_if _ _ _ _ s λ opened.
        Ends-bind _
          (λ inputs t.
            (t ≡ s) × (build_lines params (sort_by (λ l. l.line_no) rule.lines) s ≡ ok (inputs, s)))
          _ _ s (build_lines_reads params _ s)
          λ inputs t built. Ends-throw_if _ _ _ _ t λ within.
            Ends-map (λ e u. Origin params s e) _ _ (record_event-Ends params period rule inputs t)
              λ e u made. record {
                rule = rule;
                rule_found = rule_found;
                rule_active = true_of_not _ active;
                period = period;
                period_found = period_found;
                period_open = true_of_not _ opened;
                inputs = inputs;
                built = built.1;
                within = within;
                entry_number = made.0;
                id = made.1;
                entry =
                    made.2
                    ∙ ap
                        (λ (x : Db).
                          event_entry params period.id rule.id made.0 inputs x.now made.1)
                        built.0;
              }))

-- An event that posts has an active rule and an open period that covers its date, its lines are
-- those that the rule builds, within the tolerance, and its entry is made of exactly these.
pub post_event-Origin :
    (params : PostEventParams) (s t : Db) (e : JournalEntry)
    → post_event params s ≡ ok (e, t)
    → Origin params s e
post_event-Origin params s t e p = Ends→ _ (post_event params s) e t p (post_event-Ends params s)
