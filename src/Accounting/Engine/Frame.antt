-- ===== src/Accounting/Engine/Frame.antt =====
-- What an event leaves alone: every table but the sequences, the journal and the balances.
use mathlib.Core.Path.{subst}
use advanced_accountancy.Prelude.{sym, List, String}
use advanced_accountancy.Prelude.Text.{Text}
use advanced_accountancy.Accounting.Numbering.{next}
use advanced_accountancy.Tx.{◌>>=◌}
use advanced_accountancy.Tx.Keeps.{Keeps, Keeps-by, keeps_rules}
use advanced_accountancy.Schema.{
  Uuid, JournalEntry, JournalEntryLine, GlAccountBalance, DocumentNumberSequence, AccountingPeriod,
  PostingRule, Db,
}
use advanced_accountancy.Accounting.Numbering.Sequence.{next-Keeps}
use advanced_accountancy.Accounting.Engine.{
  PostEventParams, LineInput, create_entry, add_to_balances, record_event, post_event,
}
use advanced_accountancy.Accounting.Engine.Ledger.{add_to_balances-Added}
use advanced_accountancy.Accounting.Engine.Post.{build_lines-Keeps}

-- A predicate that reads none of the tables that an event writes.
abbrev pub Frame : (Db → Type 0) → Type 0
Frame P =
    (s : Db) (q : List DocumentNumberSequence) (i : Uuid) (j : List JournalEntry)
    (g : List GlAccountBalance)
    → P s
    → P (record s { sequences = q; next_id = i; journal_entries = j; gl_balances = g })

module _ {P : Db → Type 0} (k : Frame P) where
  create_entry-Frame : (make : Uuid → JournalEntry) → Keeps P (create_entry make)
  unfolding create_entry ◌>>=◌
  create_entry-Frame make = Keeps-by λ s h. k s _ _ _ _ h

  add_to_balances-Frame :
      (e : JournalEntry) (ls : List JournalEntryLine) → Keeps P (add_to_balances e ls)
  add_to_balances-Frame e ls = Keeps-by λ s h.
      let (t, run, a) = add_to_balances-Added e ls s in
      rw run (subst P (sym a.rest) (k s _ _ _ _ h))

  number-Frame : (c : Uuid) (d : String) (prefix : Text) → Keeps P (next c d prefix)
  number-Frame c d prefix = next-Keeps c d prefix (λ s q i h. k s _ _ _ _ h)

  record_event-Frame :
      (params : PostEventParams) (period : AccountingPeriod) (rule : PostingRule)
      (inputs : List LineInput)
      → Keeps P (record_event params period rule inputs)
  unfolding record_event
  record_event-Frame params period rule inputs =
      search (keeps_rules, number-Frame, create_entry-Frame, add_to_balances-Frame)

  pub post_event-Frame : (params : PostEventParams) → Keeps P (post_event params)
  unfolding post_event
  post_event-Frame params = search (keeps_rules, build_lines-Keeps, record_event-Frame) depth 12
