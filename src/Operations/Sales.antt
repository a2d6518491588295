-- ===== src/Operations/Sales.antt =====
-- backend/src/sales: what each operation does to the books.
use advanced_accountancy.Prelude.{List, [], ◌∷◌, Option, none, some}
use advanced_accountancy.Prelude.Int.{◌+ℤ◌}
use advanced_accountancy.Tx.Keeps.{Keeps, Keeps-pure, Keeps-bind}
use advanced_accountancy.Schema.{
  Uuid, Cents, Amount, SalesInvoice, CustomerReceipt, ReceiptAllocation, Delivery, DeliveryLine,
  DocStatus, Db,
}
use advanced_accountancy.Sales.Pricing.Sums.{price_lines-Keeps}
use advanced_accountancy.Sales.Quotations
use advanced_accountancy.Sales.Quotations.{CreateQuotationDto}
use advanced_accountancy.Sales.Orders
use advanced_accountancy.Sales.Orders.{CreateSalesOrderDto}
use advanced_accountancy.Sales.Invoices
use advanced_accountancy.Sales.Invoices.{CreateSalesInvoiceDto, create_invoice, update_invoice}
use advanced_accountancy.Sales.Receipts
use advanced_accountancy.Sales.Receipts.{
  CreateCustomerReceiptDto, create_receipt, update_receipt, pay_invoices,
}
use advanced_accountancy.Sales.Deliveries
use advanced_accountancy.Sales.Deliveries.{CreateDeliveryDto, draw_lines, update_delivery}
use advanced_accountancy.Sales.CreditNotes
use advanced_accountancy.Sales.CreditNotes.{CreateCreditNoteDto, settle}
use advanced_accountancy.Operations.Books.{Books, books_rules}
use advanced_accountancy.Operations.Stock.{stock_out-Keeps}

module _ {P : Db → Type 0} (b : Books P) where
  pub quotation_created-Keeps :
      (user : Uuid) (dto : CreateQuotationDto) → Keeps P (Quotations.create user dto)
  unfolding Quotations.create
  quotation_created-Keeps user dto = search (books_rules, price_lines-Keeps) depth 24

  pub order_created-Keeps :
      (user : Uuid) (dto : CreateSalesOrderDto) → Keeps P (Orders.create user dto)
  unfolding Orders.create
  order_created-Keeps user dto = search (books_rules, price_lines-Keeps) depth 24

  create_invoice-Keeps : (make : Uuid → SalesInvoice) → Keeps P (create_invoice make)
  unfolding create_invoice
  create_invoice-Keeps make = search books_rules depth 24

  update_invoice-Keeps :
      (id : Uuid) (change : SalesInvoice → SalesInvoice) → Keeps P (update_invoice id change)
  unfolding update_invoice
  update_invoice-Keeps id change = search books_rules depth 24

  pub invoice_created-Keeps :
      (user : Uuid) (dto : CreateSalesInvoiceDto) → Keeps P (Invoices.create user dto)
  unfolding Invoices.create
  invoice_created-Keeps user dto =
      search (books_rules, price_lines-Keeps, create_invoice-Keeps) depth 24

  pub invoice_moved-Keeps :
      (user id : Uuid) (from to : DocStatus) → Keeps P (Invoices.transition user id from to)
  unfolding Invoices.transition
  invoice_moved-Keeps user id from to = search (books_rules, update_invoice-Keeps) depth 24

  pub invoice_submitted-Keeps : (user id : Uuid) → Keeps P (Invoices.submit user id)
  unfolding Invoices.submit
  invoice_submitted-Keeps user id = search (books_rules, invoice_moved-Keeps) depth 24

  pub invoice_approved-Keeps : (user id : Uuid) → Keeps P (Invoices.approve user id)
  unfolding Invoices.approve
  invoice_approved-Keeps user id = search (books_rules, invoice_moved-Keeps) depth 24

  pub invoice_posted-Keeps : (user id : Uuid) → Keeps P (Invoices.post user id)
  unfolding Invoices.post
  invoice_posted-Keeps user id = search (books_rules, update_invoice-Keeps) depth 24

  create_receipt-Keeps : (make : Uuid → CustomerReceipt) → Keeps P (create_receipt make)
  unfolding create_receipt
  create_receipt-Keeps make = search books_rules depth 24

  update_receipt-Keeps :
      (id : Uuid) (change : CustomerReceipt → CustomerReceipt) → Keeps P (update_receipt id change)
  unfolding update_receipt
  update_receipt-Keeps id change = search books_rules depth 24

  pay_invoices-Keeps : (ls : List ReceiptAllocation) → Keeps P (pay_invoices ls)
  unfolding pay_invoices
  pay_invoices-Keeps [] = Keeps-pure tt
  pay_invoices-Keeps (a ∷ ls) = Keeps-bind _ _ (update_invoice-Keeps _ _) λ _. pay_invoices-Keeps ls

  pub receipt_created-Keeps :
      (user : Uuid) (dto : CreateCustomerReceiptDto) → Keeps P (Receipts.create user dto)
  unfolding Receipts.create
  receipt_created-Keeps user dto = search (books_rules, create_receipt-Keeps) depth 24

  pub receipt_posted-Keeps : (user id : Uuid) → Keeps P (Receipts.post user id)
  unfolding Receipts.post
  receipt_posted-Keeps user id =
      search (books_rules, pay_invoices-Keeps, update_receipt-Keeps) depth 28

  update_delivery-Keeps :
      (id : Uuid) (change : Delivery → Delivery) → Keeps P (update_delivery id change)
  unfolding update_delivery
  update_delivery-Keeps id change = search books_rules depth 24

  draw_lines-Keeps :
      (d : Delivery) (cost : Amount) (ls : List DeliveryLine) → Keeps P (draw_lines d cost ls)
  unfolding draw_lines
  draw_lines-Keeps d cost [] = Keeps-pure cost
  draw_lines-Keeps d cost (l ∷ ls) =
      Keeps-bind _ _ (stock_out-Keeps b _ _)
        λ issue. draw_lines-Keeps d (cost +ℤ issue.total_cost) ls

  pub delivery_created-Keeps :
      (user : Uuid) (dto : CreateDeliveryDto) → Keeps P (Deliveries.create user dto)
  unfolding Deliveries.create
  delivery_created-Keeps user dto = search books_rules depth 24

  pub delivery_posted-Keeps : (user id : Uuid) → Keeps P (Deliveries.post user id)
  unfolding Deliveries.post
  delivery_posted-Keeps user id =
      search (books_rules, draw_lines-Keeps, update_delivery-Keeps) depth 28

  settle-Keeps : (o : Option Uuid) (amount : Cents) → Keeps P (settle o amount)
  unfolding settle
  settle-Keeps none amount = Keeps-pure tt
  settle-Keeps (some id) amount = search books_rules

  pub credit_created-Keeps :
      (user : Uuid) (dto : CreateCreditNoteDto) → Keeps P (CreditNotes.create user dto)
  unfolding CreditNotes.create
  credit_created-Keeps user dto = search books_rules depth 24

  pub credit_posted-Keeps : (user id : Uuid) → Keeps P (CreditNotes.post user id)
  unfolding CreditNotes.post
  credit_posted-Keeps user id = search (books_rules, settle-Keeps) depth 28
