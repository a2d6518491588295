-- ===== src/Tests/Dispatch.antt =====
-- The delivery of Tests/Operations, 4 of the 10 on the shelf.
use advanced_accountancy.Prelude.{◌≡◌, refl, Bool-cases, inl, inr, ◌==◌, some}
use advanced_accountancy.Prelude.Int.{int_laws}
use advanced_accountancy.Tx.{ok}
use advanced_accountancy.Schema.{Delivery, Db}
use advanced_accountancy.Inventory.Stock.{StockAgrees}
use advanced_accountancy.Accounting.Provisioning.{rule_row}
use advanced_accountancy.Sales.Deliveries
use advanced_accountancy.Sales.Deliveries.Cost.{DeliveryPosted}
use advanced_accountancy.Sales.Deliveries.Enough.{IsEnough}
use advanced_accountancy.Sales.Deliveries.Success.{delivery_posts}
use advanced_accountancy.Tests.Fixture.{august}
use advanced_accountancy.Tests.Operations.{operations_run, dispatched, delivery_rule}

dispatched-StockAgrees : StockAgrees dispatched.1
unfolding operations_run
dispatched-StockAgrees w p = elim (Bool-cases (61 == w)) [
  | inl here ↦ elim (Bool-cases (71 == p)) [
    | inl this ↦ rw (here, this) refl
    | inr other ↦ rw (here, other) refl
  ]
  | inr elsewhere ↦ rw elsewhere refl
]

dispatched-IsEnough : IsEnough 61 dispatched.0.lines dispatched.1
unfolding operations_run
dispatched-IsEnough p = elim (Bool-cases (71 == p)) [
  | inl this ↦ rw this (omega int_laws)
  | inr other ↦ rw other (omega int_laws)
]

delivery_posts_example :
    (d : Delivery) × (t : Db) × (Deliveries.post 5 101 dispatched.1 ≡ ok (d, t))
    × (DeliveryPosted 5 101 dispatched.1 t × StockAgrees t)
unfolding operations_run
delivery_posts_example =
    delivery_posts 5 101 dispatched.1 dispatched.0
      (record { id = 1; business_group_id = some 9; base_currency_code = "USD" })
      (rule_row 1 delivery_rule 33) august refl refl (refl, tt) dispatched-IsEnough
      dispatched-StockAgrees refl refl refl refl (refl, (refl, tt)) refl refl
