-- ===== src/Accounting/Numbering.antt =====
-- backend/src/accounting/numbering.service.ts: document numbers, one sequence for each company and
-- document type. The row lock serialises concurrent transactions, so a call is one step here.
pub mod Format
pub mod Sequence
use advanced_accountancy.Prelude.{
  ℕ, suc, String, Bool, ◌&&◌, Option, none, some, List, [], ◌∷◌, ◌++◌, ◌==◌, find, modify_first,
  str_eq,
}
use advanced_accountancy.Prelude.Text.{Text}
use advanced_accountancy.Tx.{Tx, pure, gets, modify, ◌>>=◌, ◌>>◌}
use advanced_accountancy.Schema.{Uuid, DocumentNumberSequence, Db, fresh}
use Format.{format_number}

abbrev pub is_null : Option Uuid → Bool
is_null none = Bool.true
is_null (some _) = Bool.false

-- The test of the `SELECT ... FOR UPDATE`.
abbrev pub is_sequence : Uuid → String → DocumentNumberSequence → Bool
is_sequence company_id doc_type q =
    (q.company_id == company_id) && is_null q.branch_id && str_eq q.doc_type doc_type

abbrev pub advance : DocumentNumberSequence → DocumentNumberSequence
advance q = record q { next_number = suc q.next_number }

-- The row that the first document of a type creates; it has used number 1.
abbrev pub first_sequence : Uuid → Uuid → String → Text → DocumentNumberSequence
first_sequence id company_id doc_type prefix = record {
  id = id;
  company_id = company_id;
  branch_id = none;
  doc_type = doc_type;
  prefix = prefix;
  next_number = 2;
}

unfoldable pub take_number : Uuid → String → Text → Option DocumentNumberSequence → Tx Db Text
unfolding format_number
take_number company_id doc_type prefix none = do
  id ← fresh
  modify (λ s. record s {
    sequences = s.sequences ++ first_sequence id company_id doc_type prefix ∷ [];
  })
  pure (format_number prefix 1)
take_number company_id doc_type prefix (some existing) = do
  modify (λ s. record s { sequences = modify_first (λ q. q.id == existing.id) advance s.sequences })
  pure (format_number prefix existing.next_number)

unfoldable pub next : Uuid → String → Text → Tx Db Text
unfolding take_number
next company_id doc_type prefix = do
  existing ← gets (λ s. find (is_sequence company_id doc_type) s.sequences)
  take_number company_id doc_type prefix existing
