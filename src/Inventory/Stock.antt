-- ===== src/Inventory/Stock.antt =====
-- The stock balances follow the stock moves.
pub mod Steps
pub mod Issue
pub mod History
use advanced_accountancy.Prelude.{
  ◌≡◌, refl, sym, ap, ◌∙◌, Bool, true, false, ◌&&◌, ◌==◌, Option, none, some, List, [], ◌∷◌, ◌++◌,
  arith, find, modify_first, sum_by, sum_by-snoc, if◌then◌else◌, Bool-cases, Option-cases, inl, inr,
  ◌⊎◌,
}
use advanced_accountancy.Prelude.Int.{
  ℤ, pos, pos_part, neg_part, ◌+ℤ◌, ◌-ℤ◌, ◌*ℤ◌, neg, is_zero, leb_ℤ, ltb_ℤ, int_laws, eq_of_parts,
}
use advanced_accountancy.Tx.{Tx, ok, err, insufficient_stock, ◌>>=◌}
use advanced_accountancy.Tx.Keeps.{Keeps, Keeps-by, Holds}
use advanced_accountancy.Schema.{
  Uuid, Quantity, StockMove, StockBalance, MoveType, stock_in, stock_out, adjustment, Db,
}
use advanced_accountancy.Inventory.{
  StockMoveContext, is_balance, on_hand_of, average_of, upsert_stock, set_quantity, set_stock,
  new_balance, read_balance, create_move, save_stock, update_stock, record_stock_in,
  record_stock_out, adjust_stock, record_adjustment, stored_cost, blended_cost,
}

-- The row of a product in a warehouse.
abbrev pub balance_at : Uuid → Uuid → Db → Option StockBalance
balance_at w p s = find (is_balance w p) s.stock_balances

-- What a move counts for a product in a warehouse.
abbrev pub moved_by : Uuid → Uuid → StockMove → Quantity
moved_by w p m = if (m.warehouse_id == w) && (m.product_id == p) then m.quantity else pos 0

-- Every product has on hand, in every warehouse, what its moves sum to.
abbrev pub StockAgrees : Db → Type 0
StockAgrees s = (w p : Uuid) → on_hand_of (balance_at w p s) ≡ sum_by (moved_by w p) s.stock_moves

-- The journal and the account balances are as they were.
abbrev pub SameBooks : Db → Db → Type 0
SameBooks s t = (t.journal_entries ≡ s.journal_entries) × (t.gl_balances ≡ s.gl_balances)

abbrev pub KeepsKey : (StockBalance → StockBalance) → Type 0
KeepsKey change =
    (b : StockBalance)
    → ((change b).warehouse_id ≡ b.warehouse_id) × ((change b).product_id ≡ b.product_id)

abbrev pub saved : StockBalance → (StockBalance → StockBalance) → Option StockBalance → StockBalance
saved row change none = row
saved row change (some b) = change b

module _ (row : StockBalance) (change : StockBalance → StockBalance) (keeps : KeepsKey change) where
  -- A saved row is found under its key.
  pub find-upsert_same :
      (bs : List StockBalance)
      → find (is_balance row.warehouse_id row.product_id) (upsert_stock row change bs)
        ≡ some (saved row change (find (is_balance row.warehouse_id row.product_id) bs))
  unfolding upsert_stock
  find-upsert_same [] = ground arith
  find-upsert_same (b ∷ bs) = ground (arith, find-upsert_same bs, keeps b)

  -- The rows of other keys are as before.
  pub find-upsert_other :
      (w p : Uuid) (bs : List StockBalance)
      → is_balance w p row ≡ false
      → find (is_balance w p) (upsert_stock row change bs) ≡ find (is_balance w p) bs
  unfolding upsert_stock
  find-upsert_other w p [] h = ground arith
  find-upsert_other w p (b ∷ bs) h = ground (arith, find-upsert_other w p bs, keeps b)

pub upsert-found :
    (row : StockBalance) (change : StockBalance → StockBalance) (bs : List StockBalance)
    {b : StockBalance}
    → find (is_balance row.warehouse_id row.product_id) bs ≡ some b
    → modify_first (is_balance row.warehouse_id row.product_id) change bs
      ≡ upsert_stock row change bs
unfolding upsert_stock
upsert-found row change [] h = ground arith
upsert-found row change (c ∷ bs) {b} h = ground (arith, upsert-found row change bs {b = b})

module _ (m : StockMove) (row : StockBalance) (change : StockBalance → StockBalance) (s : Db)
    (keeps : KeepsKey change)
    (key : (m.warehouse_id ≡ row.warehouse_id) × (m.product_id ≡ row.product_id))
    (total : (saved row change (balance_at row.warehouse_id row.product_id s)).quantity_on_hand
      ≡ on_hand_of (balance_at row.warehouse_id row.product_id s) +ℤ m.quantity) where
  -- The state with the move and the row.
  abbrev pub moved_state : Db
  moved_state = record s {
    stock_moves = s.stock_moves ++ m ∷ [];
    stock_balances = upsert_stock row change s.stock_balances;
  }

  agrees_here :
      StockAgrees s
      → on_hand_of (balance_at row.warehouse_id row.product_id moved_state)
        ≡ sum_by (moved_by row.warehouse_id row.product_id) moved_state.stock_moves
  agrees_here h =
      let counts : moved_by row.warehouse_id row.product_id m ≡ m.quantity = ground (arith, key) in
      ap on_hand_of (find-upsert_same row change keeps s.stock_balances)
      ∙ total
      ∙ ap (λ (x : ℤ). x +ℤ m.quantity) (h row.warehouse_id row.product_id)
      ∙ sym (
          sum_by-snoc (moved_by row.warehouse_id row.product_id) s.stock_moves m
          ∙ ap (λ (x : ℤ). sum_by (moved_by row.warehouse_id row.product_id) s.stock_moves +ℤ x)
              counts)

  -- A move, saved with the row that holds what is on hand after it, keeps the agreement.
  pub moved_state-Agrees : StockAgrees s → StockAgrees moved_state
  moved_state-Agrees h w p = elim (Bool-cases (is_balance w p row)) [
    | inl same ↦
        let ew : row.warehouse_id ≡ w = ground arith in
        let ep : row.product_id ≡ p = ground arith in rw (← ew, ← ep) (agrees_here h)
    | inr other ↦
        let counts : moved_by w p m ≡ pos 0 = ground (arith, key) in
        ap on_hand_of (find-upsert_other row change keeps w p s.stock_balances other)
        ∙ h w p
        ∙ sym (
            sum_by-snoc (moved_by w p) s.stock_moves m
            ∙ ap (λ (x : ℤ). sum_by (moved_by w p) s.stock_moves +ℤ x) counts
            ∙ omega int_laws)
  ]

pub set_stock-KeepsKey : (q a : Quantity) → KeepsKey (set_stock q a)
set_stock-KeepsKey q a b = (refl, refl)

pub set_quantity-KeepsKey : (q : Quantity) → KeepsKey (set_quantity q)
set_quantity-KeepsKey q b = (refl, refl)

pub saved_quantity :
    (row : StockBalance) (change : StockBalance → StockBalance) (o : Option StockBalance)
    (q : Quantity)
    → row.quantity_on_hand ≡ q
    → ((b : StockBalance) → (change b).quantity_on_hand ≡ q)
    → (saved row change o).quantity_on_hand ≡ q
saved_quantity row change none q hr hc = hr
saved_quantity row change (some b) q hr hc = hc b

-- The move that a step records.
abbrev pub move_of : StockMoveContext → MoveType → Quantity → Quantity → StockMove
move_of ctx move_type quantity unit_cost = record {
  company_id = ctx.company_id;
  warehouse_id = ctx.warehouse_id;
  product_id = ctx.product_id;
  move_type = move_type;
  quantity = quantity;
  unit_cost = unit_cost;
  source_module = ctx.source_module;
  source_doc_type = ctx.source_doc_type;
  source_doc_id = ctx.source_doc_id;
  move_date = ctx.move_date;
}
