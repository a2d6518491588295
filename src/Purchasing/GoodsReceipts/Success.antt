-- ===== src/Purchasing/GoodsReceipts/Success.antt =====
-- backend/src/purchasing/goods-receipts.ts: a draft goods receipt posts.
use advanced_accountancy.Prelude.{◌≡◌, refl, ap, ◌∙◌, true, false, some, List, [], ◌∷◌, find, All}
use advanced_accountancy.Prelude.Int.{pos, leb_ℤ}
use advanced_accountancy.Tx.{ok, ◌>>=◌}
use advanced_accountancy.Tx.Commits.{
  Commits, Commits-bind, Commits-gets, Commits-or_throw, Commits-throw_if, false_of_not,
}
use advanced_accountancy.Schema.{
  Uuid, Quantity, GoodsReceipt, GoodsReceiptLine, doc_draft, doc_eq, Db,
}
use advanced_accountancy.Tables.{has_id, find_row}
use advanced_accountancy.Tables.Success.{finish-Commits}
use advanced_accountancy.Inventory.{
  StockMoveContext, Fraction, create_move, read_balance, save_stock, record_stock_in,
}
use advanced_accountancy.Inventory.Stock.{StockAgrees}
use advanced_accountancy.Purchasing.GoodsReceipts.{
  goods_receipts, receipt_context, cost_of, take_in, mark_posted, post,
}
use advanced_accountancy.Purchasing.GoodsReceipts.Stock.{GoodsPosted, post-GoodsPosted}

-- The quantity of a line is positive.
abbrev pub IsPositive : GoodsReceiptLine → Type 0
IsPositive l = leb_ℤ l.quantity (pos 0) ≡ false

record_stock_in-Commits :
    (ctx : StockMoveContext) (quantity unit_cost : Quantity) (s : Db)
    → leb_ℤ quantity (pos 0) ≡ false
    → (c : Fraction) × (t : Db) × (record_stock_in ctx quantity unit_cost s ≡ ok (c, t))
      × (t.goods_receipts ≡ s.goods_receipts)
unfolding record_stock_in create_move read_balance save_stock ◌>>=◌
record_stock_in-Commits ctx quantity unit_cost s good = rw good (_, _, refl, refl)

take_in-Commits :
    (r : GoodsReceipt) (ls : List GoodsReceiptLine) (s : Db)
    → All IsPositive ls
    → (t : Db) × (take_in r ls s ≡ ok (tt, t)) × (t.goods_receipts ≡ s.goods_receipts)
unfolding take_in ◌>>=◌
take_in-Commits r [] s h = (s, refl, refl)
take_in-Commits r (l ∷ ls) s h =
    let (c, u, run, same) =
      record_stock_in-Commits (receipt_context r l.product_id) l.quantity (cost_of l.unit_cost) s
        h.0 in
    let (t, rest, kept) = take_in-Commits r ls u h.1 in (t, rw run rest, kept ∙ same)

post-Commits :
    (user_id id : Uuid) (s : Db) (receipt : GoodsReceipt)
    → find_row goods_receipts id s ≡ some receipt
    → doc_eq receipt.status doc_draft ≡ true
    → All IsPositive receipt.lines
    → Commits (post user_id id s)
unfolding post
post-Commits user_id id s receipt found draft positive =
    let (u, taken, kept) = take_in-Commits receipt receipt.lines s positive in
    Commits-gets _ _ s (
      Commits-or_throw _ _ _ s receipt found (
        Commits-throw_if _ _ _ s (false_of_not _ draft) (
          Commits-bind _ _ s tt u taken (
            finish-Commits goods_receipts id mark_posted _ u receipt
              (ap (find (has_id goods_receipts id)) kept ∙ found)))))

-- A draft goods receipt each line of which has a positive quantity posts, where the stock
-- balances agree with the moves: the call commits; it adds one stock-in move for each of its
-- lines, of the line's quantity and cost and in their order, and no other; the balances still
-- agree with the moves; and the journal and the account balances are as they were.
pub goods_receipt_posts :
    (user_id id : Uuid) (s : Db) (receipt : GoodsReceipt)
    → find_row goods_receipts id s ≡ some receipt
    → doc_eq receipt.status doc_draft ≡ true
    → All IsPositive receipt.lines
    → StockAgrees s
    → (r : GoodsReceipt) × (t : Db) × (post user_id id s ≡ ok (r, t)) × GoodsPosted id s t r
goods_receipt_posts user_id id s receipt found draft positive agrees =
    let (r, t, run) = post-Commits user_id id s receipt found draft positive in
    (r, t, run, post-GoodsPosted user_id id s t r agrees run)
