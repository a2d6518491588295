-- ===== src/Sales/Deliveries/Enough.antt =====
-- backend/src/sales/deliveries.ts: the loop over the lines, where enough is on hand.
use advanced_accountancy.Prelude.{
  ◌≡◌, refl, ap, false, inl, inr, some, List, [], ◌∷◌, ◌==◌, arith, find, modify_first,
  find-modify_first, sum_by, All, if◌then◌else◌, Bool-cases,
}
use advanced_accountancy.Prelude.Int.{pos, ◌+ℤ◌, ◌-ℤ◌, ◌*ℤ◌, ◌≤ℤ◌, leb_ℤ, int_laws}
use advanced_accountancy.Tx.{ok, ◌>>=◌}
use advanced_accountancy.Schema.{
  Uuid, Quantity, Amount, StockBalance, StockMove, Delivery, DeliveryLine, Db,
}
use advanced_accountancy.Inventory.{is_balance, on_hand_of, set_quantity}
use advanced_accountancy.Inventory.Stock.{balance_at}
use advanced_accountancy.Inventory.Stock.Steps.{issued, record_stock_out_lem}
use advanced_accountancy.Sales.Deliveries.{delivery_context, draw_lines}

-- The quantity of a line is positive.
abbrev pub IsPositive : DeliveryLine → Type 0
IsPositive l = leb_ℤ l.quantity (pos 0) ≡ false

-- What lines ask for of a product.
abbrev pub asked : Uuid → DeliveryLine → Quantity
asked p l = if l.product_id == p then l.quantity else pos 0

-- Of every product as much is on hand as the lines ask for.
abbrev pub IsEnough : Uuid → List DeliveryLine → Db → Type 0
IsEnough w ls s = (p : Uuid) → sum_by (asked p) ls ≤ℤ on_hand_of (balance_at w p s)

asked-nonnegative :
    (p : Uuid) (ls : List DeliveryLine) → All IsPositive ls → pos 0 ≤ℤ sum_by (asked p) ls
asked-nonnegative p [] h = omega arith
asked-nonnegative p (l ∷ ls) h =
    let rest = asked-nonnegative p ls h.1 in
    let positive : pos 0 ≤ℤ l.quantity = let bad = h.0 in ground arith in
    elim (Bool-cases (l.product_id == p)) [
      | inl same ↦ let one : asked p l ≡ l.quantity = rw same refl in rw one (omega int_laws)
      | inr other ↦ let one : asked p l ≡ pos 0 = rw other refl in rw one (omega int_laws)
    ]

find-other :
    (w p q : Uuid) (n : Quantity) (bs : List StockBalance)
    → (q == p) ≡ false
    → find (is_balance w p) (modify_first (is_balance w q) (set_quantity n) bs)
      ≡ find (is_balance w p) bs
find-other w p q n [] h = refl
find-other w p q n (b ∷ bs) h = ground (arith, find-other w p q n bs h)

-- The first line takes what it asks for, and leaves enough for the others.
issued-IsEnough :
    (d : Delivery) (l : DeliveryLine) (ls : List DeliveryLine) (s : Db) (b : StockBalance)
    → balance_at d.warehouse_id l.product_id s ≡ some b
    → IsEnough d.warehouse_id (l ∷ ls) s
    → IsEnough d.warehouse_id ls (issued (delivery_context d l.product_id) b l.quantity s)
issued-IsEnough d l ls s b found enough p = elim (Bool-cases (l.product_id == p)) [
  | inl same ↦
      let e : l.product_id ≡ p = ground arith in
      let left = b.quantity_on_hand -ℤ l.quantity in
      let here : on_hand_of
            (balance_at d.warehouse_id p (issued (delivery_context d l.product_id) b l.quantity s))
          ≡ left =
        rw (← e) (
          ap on_hand_of (
            find-modify_first (is_balance d.warehouse_id l.product_id) (set_quantity left)
              s.stock_balances (λ x. refl) found)) in
      let was : on_hand_of (balance_at d.warehouse_id p s) ≡ b.quantity_on_hand =
        rw (← e, found) refl in
      let one : asked p l ≡ l.quantity = rw same refl in
      let bound : l.quantity +ℤ sum_by (asked p) ls ≤ℤ b.quantity_on_hand =
        rw (← one, ← was) (enough p) in
      rw here (omega int_laws)
  | inr other ↦
      let one : asked p l ≡ pos 0 = rw other refl in
      let bound : pos 0 +ℤ sum_by (asked p) ls ≤ℤ on_hand_of (balance_at d.warehouse_id p s) =
        rw (← one) (enough p) in
      rw
        (find-other d.warehouse_id p l.product_id (b.quantity_on_hand -ℤ l.quantity)
          s.stock_balances other)
        (omega int_laws)
]

-- The loop commits, and keeps what does not read the stock.
pub draw_lines-Commits :
    {P : Db → Type 0}
    → ((s : Db) (ms : List StockMove) (bs : List StockBalance)
        → P s
        → P (record s { stock_moves = ms; stock_balances = bs }))
    → (d : Delivery) (total : Amount) (ls : List DeliveryLine) (s : Db) → All IsPositive ls
    → IsEnough d.warehouse_id ls s
    → P s
    → (cost : Amount) × (t : Db) × (draw_lines d total ls s ≡ ok (cost, t)) × P t
unfolding draw_lines ◌>>=◌
draw_lines-Commits k d total [] s h enough holds = (total, s, refl, holds)
draw_lines-Commits k d total (l ∷ ls) s h enough holds =
    let ctx = delivery_context d l.product_id in
    let covers : l.quantity ≤ℤ on_hand_of (balance_at d.warehouse_id l.product_id s) =
      let one : asked l.product_id l ≡ l.quantity = ground arith in
      let all : l.quantity +ℤ sum_by (asked l.product_id) ls
          ≤ℤ on_hand_of (balance_at d.warehouse_id l.product_id s) =
        rw (← one) (enough l.product_id) in
      let rest = asked-nonnegative l.product_id ls h.1 in omega int_laws in
    elim (record_stock_out_lem ctx l.quantity s h.0) [
      | inl (lacks, _) ↦ ground arith
      | inr (b, found, _, run) ↦
          let (cost, t, more, held) =
            draw_lines-Commits k d (total +ℤ b.average_cost *ℤ l.quantity) ls
              (issued ctx b l.quantity s) h.1 (issued-IsEnough d l ls s b found enough)
              (k s _ _ holds) in
          (cost, t, rw run more, held)
    ]
