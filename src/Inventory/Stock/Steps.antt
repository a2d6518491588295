-- ===== src/Inventory/Stock/Steps.antt =====
-- Each stock operation keeps the balances in step with the moves.
use advanced_accountancy.Prelude.{
  ◌≡◌, refl, sym, ap, ◌∙◌, true, false, Option, none, some, [], ◌∷◌, ◌++◌, arith, modify_first,
  Bool-cases, Option-cases, inl, inr, ◌⊎◌,
}
use advanced_accountancy.Prelude.Int.{pos, ◌+ℤ◌, ◌-ℤ◌, ◌*ℤ◌, neg, is_zero, leb_ℤ, ltb_ℤ, int_laws}
use advanced_accountancy.Tx.{ok, err, insufficient_stock, ◌>>=◌}
use advanced_accountancy.Tx.Keeps.{Keeps, Keeps-by, Holds}
use advanced_accountancy.Schema.{Quantity, StockBalance, stock_in, stock_out, adjustment, Db}
use advanced_accountancy.Inventory.{
  StockMoveContext, is_balance, on_hand_of, average_of, set_quantity, set_stock, new_balance,
  read_balance, create_move, save_stock, update_stock, record_stock_in, record_stock_out,
  adjust_stock, record_adjustment, stored_cost, blended_cost,
}
use advanced_accountancy.Inventory.Stock.{
  balance_at, StockAgrees, saved, upsert-found, moved_state-Agrees, set_stock-KeepsKey,
  set_quantity-KeepsKey, saved_quantity, move_of,
}

pub record_stock_in-Agrees :
    (ctx : StockMoveContext) (quantity unit_cost : Quantity)
    → Keeps StockAgrees (record_stock_in ctx quantity unit_cost)
unfolding record_stock_in create_move read_balance save_stock ◌>>=◌
record_stock_in-Agrees ctx quantity unit_cost = Keeps-by λ s h.
    let existing = balance_at ctx.warehouse_id ctx.product_id s in
    let cost = stored_cost (blended_cost existing quantity unit_cost) in
    let q = on_hand_of existing +ℤ quantity in
    elim (Bool-cases (leb_ℤ quantity (pos 0))) [
      | inl bad ↦ rw bad tt
      | inr good ↦ rw good (
          moved_state-Agrees (move_of ctx stock_in quantity unit_cost) (new_balance ctx q cost)
            (set_stock q cost) s (set_stock-KeepsKey q cost) (refl, refl)
            (saved_quantity (new_balance ctx q cost) (set_stock q cost) existing q refl (λ b. refl))
            h)
    ]

-- What a step of `quantity` out leaves.
abbrev pub issued : StockMoveContext → StockBalance → Quantity → Db → Db
issued ctx b quantity s = record s {
  stock_moves = s.stock_moves ++ move_of ctx stock_out (neg quantity) b.average_cost ∷ [];
  stock_balances =
      modify_first (is_balance ctx.warehouse_id ctx.product_id)
        (set_quantity (b.quantity_on_hand -ℤ quantity)) s.stock_balances;
}

issued-Agrees :
    (ctx : StockMoveContext) (b : StockBalance) (quantity : Quantity) (s : Db)
    → balance_at ctx.warehouse_id ctx.product_id s ≡ some b
    → StockAgrees s
    → StockAgrees (issued ctx b quantity s)
issued-Agrees ctx b quantity s found h =
    let q = b.quantity_on_hand -ℤ quantity in
    let row = new_balance ctx q b.average_cost in
    let minus : q ≡ b.quantity_on_hand +ℤ neg quantity = omega int_laws in
    rw (upsert-found row (set_quantity q) s.stock_balances found) (
      moved_state-Agrees (move_of ctx stock_out (neg quantity) b.average_cost) row (set_quantity q)
        s (set_quantity-KeepsKey q) (refl, refl)
        (saved_quantity row (set_quantity q) (balance_at ctx.warehouse_id ctx.product_id s) q refl
            (λ x. refl)
          ∙ minus
          ∙ ap (λ (o : Option StockBalance). on_hand_of o +ℤ neg quantity) (sym found))
        h)

-- A step of stock out, by what is on hand.
pub record_stock_out_lem :
    (ctx : StockMoveContext) (quantity : Quantity) (s : Db)
    → leb_ℤ quantity (pos 0) ≡ false
    → ((ltb_ℤ (on_hand_of (balance_at ctx.warehouse_id ctx.product_id s)) quantity ≡ true)
        × (record_stock_out ctx quantity s ≡ err insufficient_stock))
      ⊎ ((b : StockBalance) × (balance_at ctx.warehouse_id ctx.product_id s ≡ some b)
          × (ltb_ℤ b.quantity_on_hand quantity ≡ false)
          × (record_stock_out ctx quantity s
              ≡ ok (
                record { unit_cost = b.average_cost; total_cost = b.average_cost *ℤ quantity },
                issued ctx b quantity s,
              )))
unfolding record_stock_out create_move read_balance update_stock ◌>>=◌
record_stock_out_lem ctx quantity s positive =
    elim (Option-cases (balance_at ctx.warehouse_id ctx.product_id s)) [
      | inl nothing ↦
          let lacks : ltb_ℤ (pos 0) quantity ≡ true = ground arith in
          inl (rw nothing lacks, rw (positive, nothing, lacks) refl)
      | inr (b, found) ↦ elim (Bool-cases (ltb_ℤ b.quantity_on_hand quantity)) [
        | inl lacks ↦ inl (rw found lacks, rw (positive, found, lacks) refl)
        | inr enough ↦ inr (b, found, enough, rw (positive, found, enough, found) refl)
      ]
    ]

pub record_stock_out-Agrees :
    (ctx : StockMoveContext) (quantity : Quantity)
    → Keeps StockAgrees (record_stock_out ctx quantity)
record_stock_out-Agrees ctx quantity = Keeps-by λ s h. elim (Bool-cases (leb_ℤ quantity (pos 0))) [
  | inl bad ↦ unfold record_stock_out ◌>>=◌ in rw bad tt
  | inr good ↦ elim (record_stock_out_lem ctx quantity s good) [
    | inl (_, refused) ↦ rw refused tt
    | inr (b, found, _, run) ↦ rw run (issued-Agrees ctx b quantity s found h)
  ]
]

-- A count of a product that has no row yet was taken of nothing.
abbrev pub CountedFrom : StockMoveContext → Quantity → Db → Type 0
CountedFrom ctx system_quantity s =
    balance_at ctx.warehouse_id ctx.product_id s ≡ none → system_quantity ≡ pos 0

adjusted_total :
    (ctx : StockMoveContext) (system counted : Quantity) (o : Option StockBalance)
    → (o ≡ none → system ≡ pos 0)
    → (saved
        (new_balance ctx counted (average_of o))
        (set_quantity (on_hand_of o +ℤ (counted -ℤ system)))
        o).quantity_on_hand
      ≡ on_hand_of o +ℤ (counted -ℤ system)
adjusted_total ctx system counted none from = rw (from refl) (omega int_laws)
adjusted_total ctx system counted (some b) from = refl

pub record_adjustment-Agrees :
    (ctx : StockMoveContext) (system counted : Quantity) (s : Db)
    → CountedFrom ctx system s
    → StockAgrees s
    → Holds StockAgrees (record_adjustment ctx system counted s)
unfolding record_adjustment adjust_stock create_move read_balance save_stock ◌>>=◌
record_adjustment-Agrees ctx system counted s from h =
    let balance = balance_at ctx.warehouse_id ctx.product_id s in
    let delta = counted -ℤ system in
    elim (Bool-cases (is_zero delta)) [
      | inl same ↦ rw same h
      | inr differs ↦ rw differs (
          moved_state-Agrees (move_of ctx adjustment delta (average_of balance))
            (new_balance ctx counted (average_of balance))
            (set_quantity (on_hand_of balance +ℤ delta)) s
            (set_quantity-KeepsKey (on_hand_of balance +ℤ delta)) (refl, refl)
            (adjusted_total ctx system counted balance from) h)
    ]
