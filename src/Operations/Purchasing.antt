-- ===== src/Operations/Purchasing.antt =====
-- backend/src/purchasing: what each operation does to the books.
use advanced_accountancy.Prelude.{List, [], ◌∷◌, Option, none, some}
use advanced_accountancy.Tx.Keeps.{Keeps, Keeps-pure, Keeps-bind}
use advanced_accountancy.Schema.{
  Uuid, Cents, GoodsReceipt, GoodsReceiptLine, PaymentAllocation, DocStatus, Db,
}
use advanced_accountancy.Sales.Pricing.Sums.{price_lines-Keeps}
use advanced_accountancy.Purchasing.Requests
use advanced_accountancy.Purchasing.Requests.{CreatePurchaseRequestDto}
use advanced_accountancy.Purchasing.Orders
use advanced_accountancy.Purchasing.Orders.{CreatePurchaseOrderDto}
use advanced_accountancy.Purchasing.GoodsReceipts
use advanced_accountancy.Purchasing.GoodsReceipts.{CreateGoodsReceiptDto, take_in}
use advanced_accountancy.Purchasing.SupplierInvoices
use advanced_accountancy.Purchasing.SupplierInvoices.{CreateSupplierInvoiceDto}
use advanced_accountancy.Purchasing.SupplierPayments
use advanced_accountancy.Purchasing.SupplierPayments.{CreateSupplierPaymentDto, pay_invoices}
use advanced_accountancy.Purchasing.DebitNotes
use advanced_accountancy.Purchasing.DebitNotes.{CreateDebitNoteDto, settle}
use advanced_accountancy.Operations.Books.{Books, books_rules, update_row-Books}
use advanced_accountancy.Operations.Stock.{stock_in-Keeps}

module _ {P : Db → Type 0} (b : Books P) where
  pub request_created-Keeps :
      (user : Uuid) (dto : CreatePurchaseRequestDto) → Keeps P (Requests.create user dto)
  unfolding Requests.create
  request_created-Keeps user dto = search books_rules depth 24

  pub request_approved-Keeps : (user id : Uuid) → Keeps P (Requests.approve user id)
  unfolding Requests.approve
  request_approved-Keeps user id = search books_rules depth 24

  pub order_created-Keeps :
      (user : Uuid) (dto : CreatePurchaseOrderDto) → Keeps P (Orders.create user dto)
  unfolding Orders.create
  order_created-Keeps user dto = search (books_rules, price_lines-Keeps) depth 24

  pub goods_created-Keeps :
      (user : Uuid) (dto : CreateGoodsReceiptDto) → Keeps P (GoodsReceipts.create user dto)
  unfolding GoodsReceipts.create
  goods_created-Keeps user dto = search books_rules depth 24

  take_in-Keeps : (r : GoodsReceipt) (ls : List GoodsReceiptLine) → Keeps P (take_in r ls)
  unfolding take_in
  take_in-Keeps r [] = Keeps-pure tt
  take_in-Keeps r (l ∷ ls) = Keeps-bind _ _ (stock_in-Keeps b _ _ _) λ _. take_in-Keeps r ls

  pub goods_posted-Keeps : (user id : Uuid) → Keeps P (GoodsReceipts.post user id)
  unfolding GoodsReceipts.post
  goods_posted-Keeps user id = search (books_rules, take_in-Keeps) depth 24

  pub invoice_created-Keeps :
      (user : Uuid) (dto : CreateSupplierInvoiceDto) → Keeps P (SupplierInvoices.create user dto)
  unfolding SupplierInvoices.create
  invoice_created-Keeps user dto = search (books_rules, price_lines-Keeps) depth 24

  pub invoice_moved-Keeps :
      (user id : Uuid) (from to : DocStatus) → Keeps P (SupplierInvoices.transition user id from to)
  unfolding SupplierInvoices.transition
  invoice_moved-Keeps user id from to = search books_rules depth 24

  pub invoice_submitted-Keeps : (user id : Uuid) → Keeps P (SupplierInvoices.submit user id)
  unfolding SupplierInvoices.submit
  invoice_submitted-Keeps user id = search (books_rules, invoice_moved-Keeps) depth 24

  pub invoice_approved-Keeps : (user id : Uuid) → Keeps P (SupplierInvoices.approve user id)
  unfolding SupplierInvoices.approve
  invoice_approved-Keeps user id = search (books_rules, invoice_moved-Keeps) depth 24

  pub invoice_posted-Keeps : (user id : Uuid) → Keeps P (SupplierInvoices.post user id)
  unfolding SupplierInvoices.post
  invoice_posted-Keeps user id = search books_rules depth 24

  pay_invoices-Keeps : (ls : List PaymentAllocation) → Keeps P (pay_invoices ls)
  unfolding pay_invoices
  pay_invoices-Keeps [] = Keeps-pure tt
  pay_invoices-Keeps (a ∷ ls) = Keeps-bind _ _ (update_row-Books b _ _ _) λ _. pay_invoices-Keeps ls

  pub payment_created-Keeps :
      (user : Uuid) (dto : CreateSupplierPaymentDto) → Keeps P (SupplierPayments.create user dto)
  unfolding SupplierPayments.create
  payment_created-Keeps user dto = search books_rules depth 24

  pub payment_posted-Keeps : (user id : Uuid) → Keeps P (SupplierPayments.post user id)
  unfolding SupplierPayments.post
  payment_posted-Keeps user id = search (books_rules, pay_invoices-Keeps) depth 28

  settle-Keeps : (o : Option Uuid) (amount : Cents) → Keeps P (settle o amount)
  unfolding settle
  settle-Keeps none amount = Keeps-pure tt
  settle-Keeps (some id) amount = search books_rules

  pub debit_created-Keeps :
      (user : Uuid) (dto : CreateDebitNoteDto) → Keeps P (DebitNotes.create user dto)
  unfolding DebitNotes.create
  debit_created-Keeps user dto = search books_rules depth 24

  pub debit_posted-Keeps : (user id : Uuid) → Keeps P (DebitNotes.post user id)
  unfolding DebitNotes.post
  debit_posted-Keeps user id = search (books_rules, settle-Keeps) depth 28
