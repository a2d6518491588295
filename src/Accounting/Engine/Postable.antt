-- ===== src/Accounting/Engine/Postable.antt =====
-- When an event posts: a description of it that reads the tables alone, and its equivalence with the
-- run of the engine.
use mathlib.Core.Path.{subst}
use advanced_accountancy.Prelude.{
  ◌≡◌, refl, sym, inl, inr, ◌↔◌, String, true, false, some, suc, List, [], ◌∷◌, ◌++◌, find, sort_by,
  ltb, All, Bool-cases, Option-cases,
}
use advanced_accountancy.Prelude.Int.{◌-ℤ◌, abs, is_zero}
use advanced_accountancy.Prelude.Text.{Text, codes, strip_prefix}
use advanced_accountancy.Tx.{ok, ◌>>=◌}
use advanced_accountancy.Tx.Commits.{
  Commits, Commits-bind, Commits-gets, Commits-or_throw, Commits-throw_if, false_of_not,
}
use advanced_accountancy.Tx.Ends.{Ends, Ends→, Ends-intro, Ends-bind, Ends-map}
use advanced_accountancy.Schema.{
  Uuid, JournalEntry, AccountingPeriod, PostingRule, PostingRuleLine, is_open, Db,
}
use advanced_accountancy.Accounting.Numbering.{next, take_number, is_sequence}
use advanced_accountancy.Accounting.Engine.{
  PostEventParams, LineInput, balance_tolerance, is_rule, covers, amount_of, to_input,
  resolve_account, build_lines, create_entry, event_entry, record_event, post_event,
}
use advanced_accountancy.Accounting.Engine.Ledger.{add_to_balances-Added}
use advanced_accountancy.Accounting.Engine.Post.{resolve_account-Keeps}
use advanced_accountancy.Accounting.Engine.Origin.{post_event-Origin}
use advanced_accountancy.Accounting.Engine.Totals.{rule_debits, rule_credits, build_lines_total}
use advanced_accountancy.Accounting.Engine.Resolving.{
  Named, Resolvable, resolve_by_lem, resolve_by-Named,
}

module _ (params : PostEventParams) (s : Db) where
  build_lines_lem :
      (ls : List PostingRuleLine)
      → All (Resolvable params s.chart_of_accounts) ls
      → (inputs : List LineInput) × (build_lines params ls s ≡ ok (inputs, s))
  unfolding build_lines resolve_account ◌>>=◌
  build_lines_lem [] h = ([], refl)
  build_lines_lem (l ∷ ls) (inl z, h) =
      let (inputs, run) = build_lines_lem ls h in (inputs, rw z run)
  build_lines_lem (l ∷ ls) (inr named, h) =
      let (inputs, run) = build_lines_lem ls h in
      let (id, resolved) =
        resolve_by_lem params.company_id params.account_overrides s l.account_resolver
          (strip_prefix "CONTROL:" l.account_resolver) named in
      let amount = amount_of params.amounts l.amount_source in
      elim (Bool-cases (is_zero amount)) [
        | inl z ↦ (inputs, rw z run)
        | inr nz ↦ (to_input l amount id ∷ inputs, rw (nz, resolved, run) refl)
      ]

  resolve_account-Ends :
      (r : String)
      → Ends
          (λ id t.
            (t ≡ s)
            × Named params.company_id params.account_overrides s.chart_of_accounts
                (strip_prefix "CONTROL:" r)
                (strip_prefix "OVERRIDE:" r))
          (resolve_account params.company_id r params.account_overrides s)
  unfolding resolve_account
  resolve_account-Ends r =
      Ends-intro _ (resolve_account params.company_id r params.account_overrides s) λ id t run. (
        (resolve_account-Keeps {P = λ x. x ≡ s} params.company_id params.account_overrides r).at s
            refl id t run,
        resolve_by-Named params.company_id params.account_overrides s r (strip_prefix "CONTROL:" r)
            id t run,
      )

  build_lines-Resolvable :
      (ls : List PostingRuleLine)
      → Ends (λ inputs t. All (Resolvable params s.chart_of_accounts) ls) (build_lines params ls s)
  unfolding build_lines
  build_lines-Resolvable [] = tt
  build_lines-Resolvable (l ∷ ls) =
      let rest = build_lines-Resolvable ls in
      elim (Bool-cases (is_zero (amount_of params.amounts l.amount_source))) [
        | inl z ↦ rw z (Ends-map _ _ (build_lines params ls s) rest (λ inputs t h. (inl refl, h)))
        | inr nz ↦ rw nz (
            Ends-bind _ _
              (resolve_account params.company_id l.account_resolver params.account_overrides) _ s
              (resolve_account-Ends l.account_resolver)
              λ id t named.
                Ends-bind _ (λ inputs u. All (Resolvable params s.chart_of_accounts) ls)
                  (build_lines params ls) _ t
                  (subst
                    (λ (x : Db).
                      Ends (λ inputs u. All (Resolvable params s.chart_of_accounts) ls)
                        (build_lines params ls x))
                    (sym named.0) rest)
                  λ inputs u h. (inr named.1, h))
      ]

-- The tables let the event post.
pub record Postable (params : PostEventParams) (s : Db) : Type 0 where
  pub rule : PostingRule
  pub rule_found : find (is_rule params.company_id params.event_type) s.posting_rules ≡ some rule
  pub rule_active : rule.is_active ≡ true
  pub period : AccountingPeriod
  pub period_found :
      find (covers s.fiscal_years params.company_id params.entry_date) s.accounting_periods
      ≡ some period
  pub period_open : is_open period.status ≡ true
  pub resolvable : All (Resolvable params s.chart_of_accounts) (sort_by (λ l. l.line_no) rule.lines)
  pub within :
      let lines = sort_by (λ l. l.line_no) rule.lines in
      ltb balance_tolerance
        (abs (rule_debits params.amounts lines -ℤ rule_credits params.amounts lines))
      ≡ false

next-Commits : (c : Uuid) (d : String) (prefix : Text) (s : Db) → Commits (next c d prefix s)
unfolding next take_number ◌>>=◌
next-Commits c d prefix s = elim (Option-cases (find (is_sequence c d) s.sequences)) [
  | inl missing ↦ rw missing (_, _, refl)
  | inr (q, found) ↦ rw found (_, _, refl)
]

create_entry_run :
    (make : Uuid → JournalEntry) (s : Db)
    → create_entry make s
      ≡ ok (
        make s.next_id,
        record s {
          journal_entries = s.journal_entries ++ make s.next_id ∷ [];
          next_id = suc s.next_id;
        },
      )
unfolding create_entry ◌>>=◌
create_entry_run make s = refl

-- What follows the guards always commits.
record_event-Commits :
    (params : PostEventParams) (period : AccountingPeriod) (rule : PostingRule)
    (inputs : List LineInput) (s : Db)
    → Commits (record_event params period rule inputs s)
unfolding record_event
record_event-Commits params period rule inputs s =
    let (number, t, drawn) = next-Commits params.company_id "JOURNAL_ENTRY" (codes "JE-") s in
    let make = event_entry params period.id rule.id number inputs t.now in
    let e = make t.next_id in
    let u : Db = record t {
      journal_entries = t.journal_entries ++ e ∷ [];
      next_id = suc t.next_id;
    } in
    let (v, added, _) = add_to_balances-Added e e.lines u in
    Commits-bind _ _ s number t drawn (
      Commits-gets _ _ t (
        Commits-bind _ _ t e u (create_entry_run make t)
          (Commits-bind _ _ u tt v added (e, v, refl))))

-- Where the tables let an event post, it posts.
pub post_event-Commits :
    (params : PostEventParams) (s : Db) → Postable params s → Commits (post_event params s)
unfolding post_event
post_event-Commits params s p =
    let lines = sort_by (λ (l : PostingRuleLine). l.line_no) p.rule.lines in
    let (inputs, built) = build_lines_lem params s lines p.resolvable in
    let totals =
      Ends→ _ (build_lines params lines s) inputs s built (build_lines_total params lines s) in
    Commits-gets _ _ s (
      Commits-or_throw _ _ _ s p.rule p.rule_found (
        Commits-throw_if _ _ _ s (false_of_not _ p.rule_active) (
          Commits-gets _ _ s (
            Commits-or_throw _ _ _ s p.period p.period_found (
              Commits-throw_if _ _ _ s (false_of_not _ p.period_open) (
                Commits-bind _ _ s inputs s built (
                  Commits-throw_if _ _ _ s (rw (totals.0, totals.1) p.within)
                    (record_event-Commits params p.period p.rule inputs s))))))))

-- Where an event posts, the tables let it.
pub post_event-Postable :
    (params : PostEventParams) (s : Db) → Commits (post_event params s) → Postable params s
post_event-Postable params s (e, t, run) =
    let o = post_event-Origin params s t e run in
    let lines = sort_by (λ (l : PostingRuleLine). l.line_no) o.rule.lines in
    let totals =
      Ends→ _ (build_lines params lines s) o.inputs s o.built (build_lines_total params lines s) in
    record {
      rule = o.rule;
      rule_found = o.rule_found;
      rule_active = o.rule_active;
      period = o.period;
      period_found = o.period_found;
      period_open = o.period_open;
      resolvable =
          Ends→ _ (build_lines params lines s) o.inputs s o.built
            (build_lines-Resolvable params s lines);
      within = rw (← totals.0, ← totals.1) o.within;
    }

pub post_event_iff :
    (params : PostEventParams) (s : Db) → Commits (post_event params s) ↔ Postable params s
post_event_iff params s = (post_event-Postable params s, post_event-Commits params s)
