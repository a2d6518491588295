-- ===== src/Sales/Pricing.antt =====
-- The loop that prices a document's lines, which backend/src/sales/sales-invoices.ts, quotations.ts,
-- sales-orders.ts and, in backend/src/purchasing, supplier-invoices.ts and purchase-orders.ts each
-- write out.
pub mod Sums
use advanced_accountancy.Prelude.{ℕ, suc, ◌≡◌, refl, Option, List, [], ◌∷◌}
use advanced_accountancy.Prelude.Int.{pos, ◌+ℤ◌, ◌*ℤ◌}
use advanced_accountancy.Prelude.Text.{Text}
use advanced_accountancy.Tx.{Tx, pure, ◌>>=◌}
use advanced_accountancy.Schema.{
  Uuid, Day, Cents, Quantity, Amount, SalesInvoiceLine, OrderLine, Db, round2, to_cents,
}
use advanced_accountancy.Accounting.TaxRates.{current_tax_rate_percent}

-- What the loop reads of a line that is asked for, and the row that it pushes.
pub record LineShape (D L : Type 0) : Type 0 where
  pub quantity : D → Quantity
  pub unit_price : D → Quantity
  pub tax_code_id : D → Option Uuid
  pub row : ℕ → D → Cents → L
  pub total_of : L → Cents
  pub row_total : (n : ℕ) (d : D) (c : Cents) → total_of (row n d c) ≡ c

-- `round2((lineTotal * rate) / 100)`, the rate in ten-thousandths of a percent.
unfoldable pub tax_of : Cents → Amount → Cents
tax_of line_total rate = round2 (line_total *ℤ rate)

-- What the column of scale 2 keeps of the price.
unfoldable pub stored_price : Quantity → Cents
stored_price unit_price = to_cents (unit_price *ℤ pos 10000)

-- The sums so far, and the lines.
pub record Priced (L : Type 0) : Type 0 where
  pub subtotal : Cents
  pub tax_amount : Cents
  pub lines : List L

module _ {D L : Type 0} (shape : LineShape D L) where
  -- `round2(line.quantity * line.unitPrice)`
  unfoldable pub line_total_of : D → Cents
  line_total_of l = round2 (shape.quantity l *ℤ shape.unit_price l)

  -- The loop from line number `n` on, with the sums so far.
  unfoldable pub price_lines : Day → ℕ → Cents → Cents → List D → Tx Db (Priced L)
  price_lines day n subtotal tax_amount [] =
      pure (record { subtotal = subtotal; tax_amount = tax_amount; lines = [] })
  price_lines day n subtotal tax_amount (l ∷ rest) = do
    let line_total = line_total_of l
    rate ← current_tax_rate_percent (shape.tax_code_id l) day
    priced ←
        price_lines day (suc n) (subtotal +ℤ line_total) (tax_amount +ℤ tax_of line_total rate) rest
    pure (record priced { lines = shape.row n l line_total ∷ priced.lines })

-- `SalesInvoiceLineDto`. The two numbers have four decimals at most, so that their product is exact.
pub record SalesInvoiceLineDto : Type 0 where
  pub product_id : Uuid
  pub description : Option Text
  pub quantity : Quantity
  pub unit_price : Quantity
  pub tax_code_id : Option Uuid

abbrev pub invoice_line : ℕ → SalesInvoiceLineDto → Cents → SalesInvoiceLine
invoice_line line_no l line_total = record {
  line_no = line_no;
  product_id = l.product_id;
  description = l.description;
  quantity = l.quantity;
  unit_price = stored_price l.unit_price;
  tax_code_id = l.tax_code_id;
  line_total = line_total;
}

abbrev pub invoice_shape : LineShape SalesInvoiceLineDto SalesInvoiceLine
invoice_shape = record {
  quantity = λ l. l.quantity;
  unit_price = λ l. l.unit_price;
  tax_code_id = λ l. l.tax_code_id;
  row = invoice_line;
  total_of = λ r. r.line_total;
  row_total = λ n d c. refl;
}

-- `QuotationLineDto`, `SalesOrderLineDto` and `PurchaseOrderLineDto`, which are alike.
pub record OrderLineDto : Type 0 where
  pub product_id : Uuid
  pub quantity : Quantity
  pub unit_price : Quantity
  pub tax_code_id : Option Uuid

abbrev pub order_line : ℕ → OrderLineDto → Cents → OrderLine
order_line line_no l line_total = record {
  line_no = line_no;
  product_id = l.product_id;
  quantity = l.quantity;
  unit_price = stored_price l.unit_price;
  tax_code_id = l.tax_code_id;
  line_total = line_total;
}

abbrev pub order_shape : LineShape OrderLineDto OrderLine
order_shape = record {
  quantity = λ l. l.quantity;
  unit_price = λ l. l.unit_price;
  tax_code_id = λ l. l.tax_code_id;
  row = order_line;
  total_of = λ r. r.line_total;
  row_total = λ n d c. refl;
}
