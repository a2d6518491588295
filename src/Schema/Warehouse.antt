-- ===== src/Schema/Warehouse.antt =====
-- Models Delivery, DeliveryLine, StockCount and StockCountLine.
use advanced_accountancy.Prelude.{ℕ, Option, List}
use advanced_accountancy.Prelude.Text.{Text}
use advanced_accountancy.Schema.Units.{Uuid, Day, Quantity}
use advanced_accountancy.Schema.Sales.{DocStatus}

pub record DeliveryLine : Type 0 where
  pub line_no : ℕ
  pub product_id : Uuid
  pub quantity : Quantity

pub record Delivery : Type 0 where
  pub id : Uuid
  pub company_id : Uuid
  pub sales_order_id : Option Uuid
  pub warehouse_id : Uuid
  pub delivery_number : Text
  pub delivery_date : Day
  pub status : DocStatus
  pub journal_entry_id : Option Uuid
  pub lines : List DeliveryLine

pub record StockCountLine : Type 0 where
  pub line_no : ℕ
  pub product_id : Uuid
  pub system_quantity : Quantity
  pub counted_quantity : Quantity

pub record StockCount : Type 0 where
  pub id : Uuid
  pub company_id : Uuid
  pub warehouse_id : Uuid
  pub count_number : Text
  pub count_date : Day
  pub status : DocStatus
  pub lines : List StockCountLine
