-- ===== src/Inventory/Stock/Issue.antt =====
-- What a stock-out leaves.
use advanced_accountancy.Prelude.{
  ◌≡◌, false, true, refl, ◌⊎◌, inl, inr, some, arith, find-modify_first,
}
use advanced_accountancy.Prelude.Int.{pos, ◌-ℤ◌, ◌*ℤ◌, ◌≤ℤ◌, leb_ℤ, ltb_ℤ, -ℤ_parts}
use advanced_accountancy.Tx.{ok, err, insufficient_stock}
use advanced_accountancy.Schema.{Quantity, StockBalance, Db}
use advanced_accountancy.Inventory.{
  StockMoveContext, IssueCost, is_balance, on_hand_of, set_quantity, record_stock_out,
}
use advanced_accountancy.Inventory.Stock.{balance_at}
use advanced_accountancy.Inventory.Stock.Steps.{issued, record_stock_out_lem}

-- The stock after `quantity` went out at the average cost.
pub record Issued (ctx : StockMoveContext) (quantity : Quantity) (s t : Db) (cost : IssueCost)
    : Type 0 where
  pub before : StockBalance
  pub after : StockBalance
  pub was : balance_at ctx.warehouse_id ctx.product_id s ≡ some before
  pub is : balance_at ctx.warehouse_id ctx.product_id t ≡ some after
  pub taken : after.quantity_on_hand ≡ before.quantity_on_hand -ℤ quantity
  pub nonnegative : pos 0 ≤ℤ after.quantity_on_hand
  pub same_average : after.average_cost ≡ before.average_cost
  pub at_average : cost.unit_cost ≡ before.average_cost
  pub value : cost.total_cost ≡ before.average_cost *ℤ quantity

issued-Issued :
    (ctx : StockMoveContext) (b : StockBalance) (quantity : Quantity) (s : Db)
    → balance_at ctx.warehouse_id ctx.product_id s ≡ some b
    → ltb_ℤ b.quantity_on_hand quantity ≡ false
    → Issued ctx quantity s
        (issued ctx b quantity s)
        (record { unit_cost = b.average_cost; total_cost = b.average_cost *ℤ quantity })
issued-Issued ctx b quantity s found enough = record {
  before = b;
  after = set_quantity (b.quantity_on_hand -ℤ quantity) b;
  was = found;
  is =
      find-modify_first (is_balance ctx.warehouse_id ctx.product_id)
        (set_quantity (b.quantity_on_hand -ℤ quantity)) s.stock_balances (λ x. refl) found;
  taken = refl;
  nonnegative =
      let le : quantity ≤ℤ b.quantity_on_hand = ground arith in
      omega (arith, -ℤ_parts b.quantity_on_hand quantity);
  same_average = refl;
  at_average = refl;
  value = refl;
}

-- A positive quantity goes out exactly where that much is on hand, and leaves the rest, never
-- negative, at an unchanged average, its value being that average times the quantity; otherwise the
-- step is refused for insufficient stock.
pub record_stock_out-Issued :
    (ctx : StockMoveContext) (quantity : Quantity) (s : Db)
    → leb_ℤ quantity (pos 0) ≡ false
    → ((ltb_ℤ (on_hand_of (balance_at ctx.warehouse_id ctx.product_id s)) quantity ≡ true)
        × (record_stock_out ctx quantity s ≡ err insufficient_stock))
      ⊎ ((cost : IssueCost) × (t : Db) × (record_stock_out ctx quantity s ≡ ok (cost, t))
          × Issued ctx quantity s t cost)
record_stock_out-Issued ctx quantity s positive =
    elim (record_stock_out_lem ctx quantity s positive) [
      | inl refused ↦ inl refused
      | inr (b, found, enough, run) ↦ inr (_, _, run, issued-Issued ctx b quantity s found enough)
    ]
