-- ===== src/Operations/Stock.antt =====
-- backend/src/inventory: what each operation does to the books.
use advanced_accountancy.Prelude.{ℕ, suc, List, [], ◌∷◌}
use advanced_accountancy.Prelude.Int.{◌-ℤ◌, is_zero}
use advanced_accountancy.Tx.Keeps.{Keeps, Keeps-pure, Keeps-bind, Keeps-gets, Keeps-if}
use advanced_accountancy.Schema.{Uuid, Quantity, StockCount, StockCountLine, Db}
use advanced_accountancy.Inventory.{
  StockMoveContext, create_move, read_balance, save_stock, update_stock, record_stock_in,
  record_stock_out, adjust_stock, record_adjustment,
}
use advanced_accountancy.Inventory.StockCounts
use advanced_accountancy.Inventory.StockCounts.{
  CreateStockCountDto, StockCountLineDto, Variances, count_lines, add_variance, adjust_lines,
  post_variance, update_count,
}
use advanced_accountancy.Operations.Books.{Books, books_rules}

module _ {P : Db → Type 0} (b : Books P) where
  pub stock_in-Keeps :
      (ctx : StockMoveContext) (q cost : Quantity) → Keeps P (record_stock_in ctx q cost)
  unfolding record_stock_in create_move read_balance save_stock
  stock_in-Keeps ctx q cost = search books_rules depth 24

  pub stock_out-Keeps : (ctx : StockMoveContext) (q : Quantity) → Keeps P (record_stock_out ctx q)
  unfolding record_stock_out create_move read_balance update_stock
  stock_out-Keeps ctx q = search books_rules depth 24

  adjust-Keeps :
      (ctx : StockMoveContext) (delta counted : Quantity) → Keeps P (adjust_stock ctx delta counted)
  unfolding adjust_stock create_move read_balance save_stock
  adjust-Keeps ctx delta counted = search books_rules depth 24

  adjustment-Keeps :
      (ctx : StockMoveContext) (system counted : Quantity)
      → Keeps P (record_adjustment ctx system counted)
  unfolding record_adjustment
  adjustment-Keeps ctx system counted =
      Keeps-if (is_zero (counted -ℤ system)) _ _ (Keeps-pure _) (adjust-Keeps ctx _ counted)

  count_lines-Keeps :
      (warehouse : Uuid) (n : ℕ) (ls : List StockCountLineDto)
      → Keeps P (count_lines warehouse n ls)
  unfolding count_lines
  count_lines-Keeps warehouse n [] = Keeps-pure []
  count_lines-Keeps warehouse n (l ∷ ls) =
      Keeps-bind _ _ (Keeps-gets _)
        λ balance. Keeps-bind _ _ (count_lines-Keeps warehouse (suc n) ls) λ lines. Keeps-pure _

  adjust_lines-Keeps :
      (c : StockCount) (v : Variances) (ls : List StockCountLine) → Keeps P (adjust_lines c v ls)
  unfolding adjust_lines
  adjust_lines-Keeps c v [] = Keeps-pure v
  adjust_lines-Keeps c v (l ∷ ls) =
      Keeps-bind _ _ (adjustment-Keeps _ _ _)
        λ value. adjust_lines-Keeps c (add_variance v value) ls

  variance-Keeps : (user : Uuid) (c : StockCount) (v : Variances) → Keeps P (post_variance user c v)
  unfolding post_variance
  variance-Keeps user c v = search books_rules depth 20

  update_count-Keeps :
      (id : Uuid) (change : StockCount → StockCount) → Keeps P (update_count id change)
  unfolding update_count
  update_count-Keeps id change = search books_rules depth 24

  pub count_created-Keeps :
      (user : Uuid) (dto : CreateStockCountDto) → Keeps P (StockCounts.create user dto)
  unfolding StockCounts.create
  count_created-Keeps user dto = search (books_rules, count_lines-Keeps) depth 24

  pub count_posted-Keeps : (user id : Uuid) → Keeps P (StockCounts.post user id)
  unfolding StockCounts.post
  count_posted-Keeps user id =
      search (books_rules, adjust_lines-Keeps, variance-Keeps, update_count-Keeps) depth 24
