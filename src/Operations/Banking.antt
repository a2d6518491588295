-- ===== src/Operations/Banking.antt =====
-- backend/src/banking: what each operation does to the books, wherever a request of several
-- transactions stops.
use advanced_accountancy.Prelude.{ℕ, suc, not, Option, none, some, List, [], ◌∷◌}
use advanced_accountancy.Prelude.Text.{Text}
use advanced_accountancy.Tx.Keeps.{Keeps, Keeps-pure, Keeps-bind, Keeps-gets}
use advanced_accountancy.Tx.Requests.{Stays, Stays-transaction, Stays-then, Stays-refuse, Stays-if}
use advanced_accountancy.Schema.{
  Uuid, Cents, BankStatement, BankStatementLine, SuggestedType, customer_receipt, supplier_payment,
  is_suggested, Db,
}
use advanced_accountancy.Banking.Matching.{MatchSuggestion, suggest}
use advanced_accountancy.Banking.Statements.{
  BankStatementLineInputDto, ImportBankStatementDto, create_lines, store_suggestion, suggest_lines,
  import_statement, ignore_line,
}
use advanced_accountancy.Banking.Approvals.{
  Approvable, read_line, receipt_dto, payment_dto, book, reconcile, approve_line, approve_match,
}
use advanced_accountancy.Operations.Books.{Books, books_rules, create_row-Books}
use advanced_accountancy.Operations.Sales.{receipt_created-Keeps, receipt_posted-Keeps}
use advanced_accountancy.Operations.Purchasing.{payment_created-Keeps, payment_posted-Keeps}

module _ {P : Db → Type 0} (b : Books P) where
  create_lines-Keeps :
      (statement : Uuid) (n : ℕ) (ls : List BankStatementLineInputDto)
      → Keeps P (create_lines statement n ls)
  unfolding create_lines
  create_lines-Keeps statement n [] = Keeps-pure []
  create_lines-Keeps statement n (l ∷ ls) =
      Keeps-bind _ _ (create_row-Books b _ _)
        λ line. Keeps-bind _ _ (create_lines-Keeps statement (suc n) ls) λ lines. Keeps-pure _

  store_suggestion-Keeps :
      (line : Uuid) (o : Option MatchSuggestion) → Keeps P (store_suggestion line o)
  unfolding store_suggestion
  store_suggestion-Keeps line none = Keeps-pure tt
  store_suggestion-Keeps line (some m) = search books_rules

  suggest-Keeps :
      (company : Uuid) (description : Text) (amount : Cents)
      → Keeps P (suggest company description amount)
  unfolding suggest
  suggest-Keeps company description amount = Keeps-gets _

  suggest_lines-Keeps :
      (company : Uuid) (ls : List BankStatementLine) → Keeps P (suggest_lines company ls)
  unfolding suggest_lines
  suggest_lines-Keeps company [] = Keeps-pure tt
  suggest_lines-Keeps company (l ∷ ls) =
      Keeps-bind _ _ (suggest-Keeps company _ _)
        λ m. Keeps-bind _ _ (store_suggestion-Keeps l.id m) λ _. suggest_lines-Keeps company ls

  pub statement_imported-Keeps :
      (user : Uuid) (dto : ImportBankStatementDto) → Keeps P (import_statement user dto)
  unfolding import_statement
  statement_imported-Keeps user dto =
      search (books_rules, create_lines-Keeps, suggest_lines-Keeps) depth 24

  pub line_ignored-Keeps : (user line : Uuid) → Keeps P (ignore_line user line)
  unfolding ignore_line
  line_ignored-Keeps user line = search books_rules depth 20

  reconcile-Keeps :
      (user : Uuid) (s : BankStatement) (line : Uuid) (entry : Option Uuid)
      → Keeps P (reconcile user s line entry)
  unfolding reconcile
  reconcile-Keeps user s line entry = search books_rules depth 20

  read_line-Keeps : (line : Uuid) → Keeps P (read_line line)
  unfolding read_line
  read_line-Keeps line = search books_rules depth 20

  book-Stays :
      (user : Uuid) (l : BankStatementLine) (s : BankStatement) (invoice : Uuid)
      (o : Option SuggestedType)
      → Stays P (book user l s invoice o)
  unfolding book
  book-Stays user l s invoice none = Stays-refuse _
  book-Stays user l s invoice (some customer_receipt) =
      Stays-then _ _ (Stays-transaction _ (receipt_created-Keeps b user (receipt_dto l s invoice)))
        λ receipt.
          Stays-then _ _ (Stays-transaction _ (receipt_posted-Keeps b user receipt.id))
            λ posted. record { at = λ t h. h }
  book-Stays user l s invoice (some supplier_payment) =
      Stays-then _ _ (Stays-transaction _ (payment_created-Keeps b user (payment_dto l s invoice)))
        λ payment.
          Stays-then _ _ (Stays-transaction _ (payment_posted-Keeps b user payment.id))
            λ posted. record { at = λ t h. h }

  approve_line-Stays :
      (user line : Uuid) (x : Approvable) (o : Option Uuid) → Stays P (approve_line user line x o)
  unfolding approve_line
  approve_line-Stays user line x none = Stays-refuse _
  approve_line-Stays user line x (some invoice) =
      Stays-if (not (is_suggested x.line.status)) _ _ (Stays-refuse _) (
        Stays-then _ _ (book-Stays user x.line x.statement invoice x.line.suggested_type)
          λ entry. Stays-transaction _ (reconcile-Keeps user x.statement line entry))

  -- Also where it throws after some of its transactions have committed.
  pub match_approved-Stays : (user line : Uuid) → Stays P (approve_match user line)
  unfolding approve_match
  match_approved-Stays user line =
      Stays-then _ _ (Stays-transaction _ (read_line-Keeps line))
        λ x. approve_line-Stays user line x x.line.suggested_invoice_id
