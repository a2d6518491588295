-- ===== src/Purchasing/GoodsReceipts/Stock.antt =====
-- backend/src/purchasing/goods-receipts.ts: a receipt that posts raises the stock by its lines, and
-- leaves the ledger of money alone.
use advanced_accountancy.Prelude.{
  ◌≡◌, refl, ap, ◌∙◌, inl, inr, some, true, List, [], ◌∷◌, ◌++◌, map, Bool-cases,
}
use advanced_accountancy.Prelude.Int.{pos, leb_ℤ}
use advanced_accountancy.Tx.{ok, ◌>>=◌}
use advanced_accountancy.Tx.Keeps.{Keeps, Keeps-bind, Keeps-pure}
use advanced_accountancy.Tx.Ends.{
  Ends, Ends→, Ends-intro, Ends-bind, Ends-gets, Ends-or_throw, Ends-throw_if, Ends-map,
}
use advanced_accountancy.Schema.{
  Uuid, Quantity, GoodsReceipt, GoodsReceiptLine, StockMove, stock_in, doc_draft, doc_eq, Db,
}
use advanced_accountancy.Tables.{find_row}
use advanced_accountancy.Tables.Finish.{finish-Keeps}
use advanced_accountancy.Accounting.Engine.Update.{true_of_not}
use advanced_accountancy.Inventory.{
  StockMoveContext, create_move, read_balance, save_stock, record_stock_in,
}
use advanced_accountancy.Inventory.Stock.{StockAgrees}
use advanced_accountancy.Inventory.Stock.Steps.{record_stock_in-Agrees}
use advanced_accountancy.Purchasing.GoodsReceipts.{
  goods_receipts, receipt_context, cost_of, take_in, mark_posted, post,
}

-- The move of a stock-in.
abbrev pub move_in : StockMoveContext → Quantity → Quantity → StockMove
move_in ctx quantity unit_cost = record {
  company_id = ctx.company_id;
  warehouse_id = ctx.warehouse_id;
  product_id = ctx.product_id;
  move_type = stock_in;
  quantity = quantity;
  unit_cost = unit_cost;
  source_module = ctx.source_module;
  source_doc_type = ctx.source_doc_type;
  source_doc_id = ctx.source_doc_id;
  move_date = ctx.move_date;
}

-- The moves of a receipt's lines, one each.
abbrev pub moves_of : GoodsReceipt → List GoodsReceiptLine → List StockMove
moves_of r = map (λ l. move_in (receipt_context r l.product_id) l.quantity (cost_of l.unit_cost))

-- The moves that are added, and the money as it was.
pub record Moved (moves : List StockMove) (s t : Db) : Type 0 where
  pub recorded : t.stock_moves ≡ s.stock_moves ++ moves
  pub journal : t.journal_entries ≡ s.journal_entries
  pub balances : t.gl_balances ≡ s.gl_balances

record_stock_in-Moved :
    (ctx : StockMoveContext) (quantity unit_cost : Quantity) (s : Db)
    → Ends
        (λ c t. Moved (move_in ctx quantity unit_cost ∷ []) s t)
        (record_stock_in ctx quantity unit_cost s)
unfolding record_stock_in create_move read_balance save_stock ◌>>=◌
record_stock_in-Moved ctx quantity unit_cost s = elim (Bool-cases (leb_ℤ quantity (pos 0))) [
  | inl bad ↦ rw bad tt
  | inr good ↦ rw good (record { recorded = refl; journal = refl; balances = refl })
]

append_more : (xs ys zs : List StockMove) → (xs ++ ys) ++ zs ≡ xs ++ (ys ++ zs)
append_more [] ys zs = refl
append_more (x ∷ xs) ys zs = ap (λ l. x ∷ l) (append_more xs ys zs)

append_none : (xs : List StockMove) → xs ≡ xs ++ []
append_none [] = refl
append_none (x ∷ xs) = ap (λ l. x ∷ l) (append_none xs)

take_in-Moved :
    (r : GoodsReceipt) (ls : List GoodsReceiptLine) (s : Db)
    → Ends (λ x t. Moved (moves_of r ls) s t) (take_in r ls s)
unfolding take_in
take_in-Moved r [] s = record {
  recorded = append_none s.stock_moves;
  journal = refl;
  balances = refl;
}
take_in-Moved r (l ∷ ls) s =
    let move = move_in (receipt_context r l.product_id) l.quantity (cost_of l.unit_cost) in
    Ends-bind _ (λ c t. Moved (move ∷ []) s t) _ _ s (record_stock_in-Moved _ _ _ s)
      λ c t one.
        Ends-map (λ x u. Moved (moves_of r (l ∷ ls)) s u) (λ x u. Moved (moves_of r ls) t u)
          (take_in r ls t) (take_in-Moved r ls t)
          λ x u rest. record {
            recorded =
                rest.recorded
                ∙ ap (λ (m : List StockMove). m ++ moves_of r ls) one.recorded
                ∙ append_more s.stock_moves (move ∷ []) (moves_of r ls);
            journal = rest.journal ∙ one.journal;
            balances = rest.balances ∙ one.balances;
          }

take_in-Agrees : (r : GoodsReceipt) (ls : List GoodsReceiptLine) → Keeps StockAgrees (take_in r ls)
unfolding take_in
take_in-Agrees r [] = Keeps-pure tt
take_in-Agrees r (l ∷ ls) = Keeps-bind _ _ (record_stock_in-Agrees _ _ _) λ c. take_in-Agrees r ls

-- What posting a receipt did.
pub record GoodsPosted (id : Uuid) (s t : Db) (posted : GoodsReceipt) : Type 0 where
  pub receipt : GoodsReceipt
  pub found : find_row goods_receipts id s ≡ some receipt
  pub draft : doc_eq receipt.status doc_draft ≡ true
  pub moved : Moved (moves_of receipt receipt.lines) s t
  pub agrees : StockAgrees t

post-Ends :
    (user_id id : Uuid) (s : Db)
    → StockAgrees s
    → Ends (λ r t. GoodsPosted id s t r) (post user_id id s)
unfolding post
post-Ends user_id id s agrees = Ends-gets _ _ _ s (
    Ends-or_throw _ _ _ _ s λ receipt found. Ends-throw_if _ _ _ _ s λ draft.
      Ends-bind _ (λ x u. Moved (moves_of receipt receipt.lines) s u × StockAgrees u) _ _ s
        (Ends-intro (λ x u. Moved (moves_of receipt receipt.lines) s u × StockAgrees u)
          (take_in receipt receipt.lines s)
          λ x u run. (
            Ends→ _ (take_in receipt receipt.lines s) x u run
                (take_in-Moved receipt receipt.lines s),
            (take_in-Agrees receipt receipt.lines).at s agrees x u run,
          ))
        λ x u taken.
          Ends-intro (λ r t. GoodsPosted id s t r) _
            λ r t run.
              let kept =
                (finish-Keeps goods_receipts
                    {P = λ y. Moved (moves_of receipt receipt.lines) s y × StockAgrees y} id
                    mark_posted _
                    (λ y xs h. (
                      record {
                        recorded = h.0.recorded;
                        journal = h.0.journal;
                        balances = h.0.balances;
                      },
                      h.1,
                    ))
                    (λ y l h. (
                      record {
                        recorded = h.0.recorded;
                        journal = h.0.journal;
                        balances = h.0.balances;
                      },
                      h.1,
                    ))).at
                  u taken r t run in
              record {
                receipt = receipt;
                found = found;
                draft = true_of_not _ draft;
                moved = kept.0;
                agrees = kept.1;
              })

pub post-GoodsPosted :
    (user_id id : Uuid) (s t : Db) (r : GoodsReceipt)
    → StockAgrees s
    → post user_id id s ≡ ok (r, t)
    → GoodsPosted id s t r
post-GoodsPosted user_id id s t r agrees e =
    Ends→ _ (post user_id id s) r t e (post-Ends user_id id s agrees)
