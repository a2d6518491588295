-- ===== src/Tests/Purchasing.antt =====
-- The theorems on purchasing, at the company of Fixture with a supplier.
use advanced_accountancy.Prelude.{◌≡◌, refl, none, some, [], ◌∷◌}
use advanced_accountancy.Prelude.Int.{pos}
use advanced_accountancy.Tx.{ok}
use advanced_accountancy.Schema.{DebitNote, GoodsReceipt, Db}
use advanced_accountancy.Accounting.Engine.Balance.{entry_debits, entry_credits}
use advanced_accountancy.Inventory.Stock.{StockAgrees}
use advanced_accountancy.Purchasing.DebitNotes
use advanced_accountancy.Purchasing.DebitNotes.{CreateDebitNoteDto, new_note, settle}
use advanced_accountancy.Purchasing.DebitNotes.Settled.{NotePosted}
use advanced_accountancy.Purchasing.DebitNotes.Success.{debit_note_posts}
use advanced_accountancy.Purchasing.GoodsReceipts
use advanced_accountancy.Purchasing.GoodsReceipts.{
  CreateGoodsReceiptDto, new_receipt, take_in, cost_of,
}
use advanced_accountancy.Purchasing.GoodsReceipts.Stock.{GoodsPosted}
use advanced_accountancy.Purchasing.GoodsReceipts.Success.{goods_receipt_posts}
use advanced_accountancy.Purchasing.Histories.{
  PurchaseHistory, start, then_step, created, submitted, approved, posted, paid, elsewhere,
  InvoicesTotalled, PurchaseHistory-Totalled,
}
use advanced_accountancy.Tests.Fixture.{august, committed}
use advanced_accountancy.Tests.Bills.{
  debit_rule, purchase_db, bill, purchase_runs, billed, billed_runs, sent, sent_runs, accepted,
  accepted_runs, booked, booked_runs, drafted, settled, settled_runs,
}

abbrev returned : CreateDebitNoteDto
returned = record {
  company_id = 1;
  supplier_id = 52;
  supplier_invoice_id = some 101;
  debit_note_date = 738012;
  amount = pos 1000000000;
}

abbrev noted : DebitNote × Db
unfolding purchase_runs
noted = committed (DebitNotes.create 5 returned billed.1) (new_note returned [] 0) purchase_db

abbrev note_booked : DebitNote × Db
unfolding purchase_runs
note_booked = committed (DebitNotes.post 6 noted.0.id noted.1) (new_note returned [] 0) purchase_db

note_runs : DebitNotes.post 6 noted.0.id noted.1 ≡ ok note_booked
unfolding purchase_runs
note_runs = refl

debit_note_posts_example :
    (n : DebitNote) × (t : Db) × (DebitNotes.post 6 noted.0.id noted.1 ≡ ok (n, t))
    × ((p : NotePosted 6 noted.0.id noted.1 t) × (entry_debits p.entry ≡ entry_credits p.entry))
unfolding purchase_runs
debit_note_posts_example =
    debit_note_posts 6 noted.0.id noted.1 noted.0
      (record { id = 1; business_group_id = some 9; base_currency_code = "USD" }) debit_rule august
      refl refl refl (_, refl) refl refl refl (refl, (refl, tt)) refl refl

drafted_same : drafted.1.supplier_invoices ≡ booked.1.supplier_invoices
unfolding purchase_runs
drafted_same = refl

purchases : PurchaseHistory purchase_db settled.1
purchases =
    then_step
      (then_step
        (then_step
          (then_step
            (then_step (then_step start (created 5 bill billed.0 billed_runs))
              (submitted 5 101 sent.0 sent_runs))
            (approved 6 101 accepted.0 accepted_runs))
          (posted 6 101 booked.0 booked_runs))
        (elsewhere drafted_same))
      (paid 6 drafted.0.id settled.0 settled_runs)

PurchaseHistory-Totalled_example : InvoicesTotalled settled.1
PurchaseHistory-Totalled_example = PurchaseHistory-Totalled purchases tt

-- 10 at 25.00.
abbrev pallet : CreateGoodsReceiptDto
pallet = record {
  company_id = 1;
  purchase_order_id = none;
  warehouse_id = 81;
  receipt_date = 738010;
  lines = record { product_id = 71; quantity = pos 100000; unit_cost = pos 250000 } ∷ [];
}

abbrev arrived : GoodsReceipt × Db
unfolding purchase_runs
arrived =
    committed (GoodsReceipts.create 5 pallet purchase_db) (new_receipt pallet [] 0) purchase_db

abbrev stocked : GoodsReceipt × Db
unfolding purchase_runs
stocked =
    committed (GoodsReceipts.post 5 arrived.0.id arrived.1) (new_receipt pallet [] 0) purchase_db

stocked_runs : GoodsReceipts.post 5 arrived.0.id arrived.1 ≡ ok stocked
unfolding purchase_runs
stocked_runs = refl

arrived-StockAgrees : StockAgrees arrived.1
unfolding purchase_runs
arrived-StockAgrees w p = refl

goods_receipt_posts_example :
    (r : GoodsReceipt) × (t : Db) × (GoodsReceipts.post 5 arrived.0.id arrived.1 ≡ ok (r, t))
    × GoodsPosted arrived.0.id arrived.1 t r
unfolding purchase_runs
goods_receipt_posts_example =
    goods_receipt_posts 5 arrived.0.id arrived.1 arrived.0 refl refl (refl, tt) arrived-StockAgrees
