-- ===== src/Schema/Stock.antt =====
-- Models StockMove and StockBalance.
use advanced_accountancy.Prelude.{String}
use advanced_accountancy.Schema.Units.{Uuid, Day, Quantity}

pub data MoveType : Type 0 where
  stock_in stock_out adjustment : MoveType

-- Quantities and unit costs in ten-thousandths.
pub record StockMove : Type 0 where
  pub company_id : Uuid
  pub warehouse_id : Uuid
  pub product_id : Uuid
  pub move_type : MoveType
  pub quantity : Quantity
  pub unit_cost : Quantity
  pub source_module : String
  pub source_doc_type : String
  pub source_doc_id : Uuid
  pub move_date : Day

pub record StockBalance : Type 0 where
  pub company_id : Uuid
  pub warehouse_id : Uuid
  pub product_id : Uuid
  pub quantity_on_hand : Quantity
  pub average_cost : Quantity
