-- ===== src/Sales/Invoices/Totals.antt =====
-- The totals of a created invoice.
use advanced_accountancy.Prelude.{◌≡◌, refl, ◌∙◌, List, sum_by, length}
use advanced_accountancy.Prelude.Int.{pos, ◌+ℤ◌, int_laws}
use advanced_accountancy.Tx.{ok, ◌>>=◌}
use advanced_accountancy.Tx.Ends.{Ends, Ends→, Ends-bind, Ends-trivial}
use advanced_accountancy.Schema.{Uuid, Cents, SalesInvoice, SalesInvoiceLine, Db, doc_draft}
use advanced_accountancy.Sales.Pricing.{Priced, invoice_shape}
use advanced_accountancy.Sales.Pricing.Sums.{price_lines-Ends}
use advanced_accountancy.Sales.Invoices.{CreateSalesInvoiceDto, create, create_invoice, new_invoice}

abbrev pub line_sum : List SalesInvoiceLine → Cents
line_sum = sum_by (λ l. l.line_total)

-- What an invoice is created with.
pub record Totalled (dto : CreateSalesInvoiceDto) (i : SalesInvoice) : Type 0 where
  pub draft : i.status ≡ doc_draft
  pub unpaid : i.amount_paid ≡ pos 0
  pub every_line : length i.lines ≡ length dto.lines
  pub subtotal : i.subtotal ≡ line_sum i.lines
  pub total : i.total ≡ i.subtotal +ℤ i.tax_amount

create_invoice-Ends :
    (make : Uuid → SalesInvoice) (s : Db)
    → Ends (λ i t. (id : Uuid) × (i ≡ make id)) (create_invoice make s)
unfolding create_invoice ◌>>=◌
create_invoice-Ends make s = (s.next_id, refl)

create-Ends :
    (user_id : Uuid) (dto : CreateSalesInvoiceDto) (s : Db)
    → Ends (λ i t. Totalled dto i) (create user_id dto s)
unfolding create
create-Ends user_id dto s =
    Ends-bind _
      (λ (p : Priced SalesInvoiceLine) t.
        (p.subtotal ≡ pos 0 +ℤ line_sum p.lines) × (length p.lines ≡ length dto.lines))
      _ _ s (price_lines-Ends invoice_shape dto.invoice_date 1 (pos 0) (pos 0) dto.lines s)
      λ p t priced.
        Ends-bind _ (λ n u. Unit) _ _ t (Ends-trivial _)
          λ n u _.
            Ends-bind _ (λ i v. (id : Uuid) × (i ≡ new_invoice dto p n id)) _ _ u
              (create_invoice-Ends _ u)
              λ i v made.
                Ends-bind _ (λ x y. Unit) _ _ v (Ends-trivial _)
                  λ x y _. rw made.1 (record {
                    draft = refl;
                    unpaid = refl;
                    every_line = priced.1;
                    subtotal = priced.0 ∙ omega int_laws;
                    total = refl;
                  })

-- An invoice that is created is an unpaid draft with one line for each line asked for; its subtotal
-- is the sum of its line totals, and its total is the subtotal and the tax.
pub create-Totalled :
    (user_id : Uuid) (dto : CreateSalesInvoiceDto) (s t : Db) (i : SalesInvoice)
    → create user_id dto s ≡ ok (i, t)
    → Totalled dto i
create-Totalled user_id dto s t i e =
    Ends→ _ (create user_id dto s) i t e (create-Ends user_id dto s)
