-- ===== src/Accounting/Engine/Post.antt =====
-- Posting by rule: the balances stay reconciled with the journal, and what is posted is balanced.
use advanced_accountancy.Prelude.{String, suc, Option, none, some, ◌≡◌, refl, List, [], ◌∷◌, ◌++◌}
use advanced_accountancy.Prelude.Int.{is_zero}
use advanced_accountancy.Tx.{Tx, pure, ◌>>=◌, ◌>>◌}
use advanced_accountancy.Tx.Keeps.{
  Keeps, Keeps-by, Keeps-pure, Keeps-throw, Keeps-gets, Keeps-bind, Keeps-if, keeps_rules,
}
use advanced_accountancy.Schema.{
  Uuid, JournalEntry, posted, AccountingPeriod, PostingRule, PostingRuleLine, Db,
}
use advanced_accountancy.Accounting.Numbering.Sequence.{next-Keeps}
use advanced_accountancy.Accounting.Engine.{
  PostEventParams, LineInput, create_entry, add_to_balances, amount_of, to_input, control_account,
  override_account, resolve_override, resolve_by, resolve_account, build_lines, record_event,
  post_event,
}
use advanced_accountancy.Accounting.Engine.Ledger.{
  Reconciled, add_to_balances-Added, posted-Reconciled,
}

-- Creating a posted entry and adding its lines.
abbrev pub post_new : (Uuid → JournalEntry) → Tx Db JournalEntry
post_new make = do entry ← create_entry make; add_to_balances entry entry.lines; pure entry

pub post_new-Keeps :
    (make : Uuid → JournalEntry)
    → ((i : Uuid) → (make i).status ≡ posted)
    → Keeps Reconciled (post_new make)
unfolding create_entry ◌>>=◌
post_new-Keeps make p = Keeps-by λ s r.
    let e = make s.next_id in
    let s' : Db = record s {
      journal_entries = s.journal_entries ++ e ∷ [];
      next_id = suc s.next_id;
    } in
    let (t, run, a) = add_to_balances-Added e e.lines s' in
    rw run (posted-Reconciled e (record s { next_id = suc s.next_id }) t (p s.next_id) r a)

module _ {P : Db → Type 0} (c : Uuid) (overrides : List (String × Uuid)) where
  -- Resolving an account reads.
  control_account-Keeps : (control : String) → Keeps P (control_account c control)
  unfolding control_account
  control_account-Keeps control = search keeps_rules

  override_account-Keeps : (o : Option Uuid) → Keeps P (override_account c o)
  unfolding override_account
  override_account-Keeps o = search keeps_rules

  resolve_override-Keeps : (o : Option String) → Keeps P (resolve_override c overrides o)
  unfolding resolve_override
  resolve_override-Keeps none = Keeps-throw _
  resolve_override-Keeps (some key) = override_account-Keeps _

  resolve_by-Keeps : (r : String) (o : Option String) → Keeps P (resolve_by c r overrides o)
  unfolding resolve_by
  resolve_by-Keeps r none = resolve_override-Keeps _
  resolve_by-Keeps r (some control) = control_account-Keeps control

  pub resolve_account-Keeps : (r : String) → Keeps P (resolve_account c r overrides)
  unfolding resolve_account
  resolve_account-Keeps r = resolve_by-Keeps r _

pub build_lines-Keeps :
    {P : Db → Type 0} (params : PostEventParams) (ls : List PostingRuleLine)
    → Keeps P (build_lines params ls)
unfolding build_lines
build_lines-Keeps params [] = Keeps-pure []
build_lines-Keeps params (l ∷ ls) =
    let later = build_lines-Keeps params ls in
    let amount = amount_of params.amounts l.amount_source in
    Keeps-if (is_zero amount) _ _ later (
      Keeps-bind _ _
        (resolve_account-Keeps params.company_id params.account_overrides l.account_resolver)
        (λ a. Keeps-bind _ _ later (λ i. Keeps-pure (to_input l amount a ∷ i))))

record_event-Keeps :
    (params : PostEventParams) (period : AccountingPeriod) (rule : PostingRule)
    (inputs : List LineInput)
    → Keeps Reconciled (record_event params period rule inputs)
unfolding record_event
record_event-Keeps params period rule inputs =
    Keeps-bind _ _ (next-Keeps _ _ _ (λ s q i h. h))
      (λ n. Keeps-bind _ _ (Keeps-gets _) (λ now. post_new-Keeps _ (λ i. refl)))

-- Posting an event keeps the balances equal to the sums of the journal, over every selection of keys.
pub post_event-Keeps : (params : PostEventParams) → Keeps Reconciled (post_event params)
unfolding post_event
post_event-Keeps params = search (keeps_rules, build_lines-Keeps, record_event-Keeps) depth 20
