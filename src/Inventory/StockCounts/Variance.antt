-- ===== src/Inventory/StockCounts/Variance.antt =====
-- The amounts that a count posts are the value of the adjustments that it records.
use mathlib.Core.List.{append-nil, append_assoc}
use advanced_accountancy.Prelude.{
  if◌then◌else◌, map, ◌≡◌, refl, sym, ap, ◌∙◌, List, [], ◌∷◌, ◌++◌, arith, sum_by, sum_by-append,
  Bool-cases, inl, inr,
}
use advanced_accountancy.Prelude.Int.{
  ℤ, pos, ◌+ℤ◌, ◌-ℤ◌, ◌*ℤ◌, ◌≤ℤ◌, neg, is_zero, ltb_ℤ, int_laws, +ℤ_parts, neg_parts,
}
use advanced_accountancy.Tx.{◌>>=◌}
use advanced_accountancy.Tx.Ends.{Ends, Ends-bind, Ends-map}
use advanced_accountancy.Schema.{
  Uuid, Quantity, Amount, StockMove, StockCount, StockCountLine, adjustment, Db,
}
use advanced_accountancy.Inventory.{
  StockMoveContext, average_of, read_balance, create_move, save_stock, adjust_stock,
  record_adjustment,
}
use advanced_accountancy.Inventory.Stock.{balance_at, SameBooks, move_of}
use advanced_accountancy.Inventory.StockCounts.{Variances, add_variance, adjust_lines}

-- The value of an adjustment, in units of 10^-8.
abbrev pub value_of : StockMove → Amount
value_of m = m.quantity *ℤ m.unit_cost

-- What a move changes.
abbrev pub change_of : StockMove → Uuid × Quantity
change_of m = (m.product_id, m.quantity)

-- What a line calls for: nothing where the count is the system's, its variance otherwise.
abbrev pub variance_of : Uuid → Quantity → Quantity → List (Uuid × Quantity)
variance_of product system counted =
    if is_zero (counted -ℤ system) then [] else (product, counted -ℤ system) ∷ []

abbrev pub variances : List StockCountLine → List (Uuid × Quantity)
variances [] = []
variances (l ∷ ls) = variance_of l.product_id l.system_quantity l.counted_quantity ++ variances ls

-- What one adjustment records, and its value.
record Adjusted (called : List (Uuid × Quantity)) (value : Amount) (s t : Db) : Type 0 where
  pub moves : List StockMove
  pub recorded : t.stock_moves ≡ s.stock_moves ++ moves
  pub worth : value ≡ sum_by value_of moves
  pub as_called : map change_of moves ≡ called
  pub books : SameBooks s t

record_adjustment-Adjusted :
    (ctx : StockMoveContext) (system counted : Quantity) (s : Db)
    → Ends
        (λ value t. Adjusted (variance_of ctx.product_id system counted) value s t)
        (record_adjustment ctx system counted s)
unfolding record_adjustment adjust_stock create_move read_balance save_stock ◌>>=◌
record_adjustment-Adjusted ctx system counted s = elim (Bool-cases (is_zero (counted -ℤ system))) [
  | inl same ↦ rw same (record {
    moves = [];
    recorded = sym (append-nil s.stock_moves);
    worth = refl;
    as_called = refl;
    books = (refl, refl);
  })
  | inr differs ↦ rw differs (record {
    moves =
        move_of ctx adjustment (counted -ℤ system)
          (average_of (balance_at ctx.warehouse_id ctx.product_id s))
        ∷ [];
    recorded = refl;
    worth = omega int_laws;
    as_called = refl;
    books = (refl, refl);
  })
]

-- The gains less the losses.
abbrev pub net : Variances → Amount
net v = v.increase_amount -ℤ v.decrease_amount

net-add_variance : (v : Variances) (value : Amount) → net (add_variance v value) ≡ net v +ℤ value
unfolding add_variance
net-add_variance v value = elim (Bool-cases (ltb_ℤ (pos 0) value)) [
  | inl gain ↦ rw gain (omega int_laws)
  | inr loss ↦ rw loss (omega int_laws)
]

abbrev pub Nonnegative : Variances → Type 0
Nonnegative v = (pos 0 ≤ℤ v.increase_amount) × (pos 0 ≤ℤ v.decrease_amount)

add_variance-Nonnegative :
    (v : Variances) (value : Amount) → Nonnegative v → Nonnegative (add_variance v value)
unfolding add_variance
add_variance-Nonnegative v value h = elim (Bool-cases (ltb_ℤ (pos 0) value)) [
  | inl gain ↦
      let le : pos 0 ≤ℤ value = ground arith in
      rw gain (omega (arith, +ℤ_parts v.increase_amount value, h, le), h.1)
  | inr loss ↦
      let le : value ≤ℤ pos 0 = ground arith in
      rw loss (h.0, omega (arith, +ℤ_parts v.decrease_amount (neg value), neg_parts value, h, le))
]

assoc : (a b c : ℤ) → a +ℤ b +ℤ c ≡ a +ℤ (b +ℤ c)
assoc a b c = omega int_laws

map-append :
    (xs ys : List StockMove) → map change_of (xs ++ ys) ≡ map change_of xs ++ map change_of ys
map-append [] ys = refl
map-append (x ∷ xs) ys = ap (λ c. change_of x ∷ c) (map-append xs ys)

-- What the loop over the lines records, and what it adds to the amounts.
pub record Varied (ls : List StockCountLine) (before after : Variances) (s t : Db) : Type 0 where
  pub moves : List StockMove
  pub recorded : t.stock_moves ≡ s.stock_moves ++ moves
  pub as_called : map change_of moves ≡ variances ls
  pub worth : net after ≡ net before +ℤ sum_by value_of moves
  pub nonnegative : Nonnegative after
  pub books : SameBooks s t

-- The loop over a count's lines keeps both amounts from going negative, and the moves that it records
-- are all the moves that it adds; the gains less the losses grow by the sum of their quantities at
-- their unit costs.
pub adjust_lines-Varied :
    (c : StockCount) (v : Variances) (ls : List StockCountLine) (s : Db)
    → Nonnegative v
    → Ends (λ after t. Varied ls v after s t) (adjust_lines c v ls s)
unfolding adjust_lines
adjust_lines-Varied c v [] s h = record {
  moves = [];
  recorded = sym (append-nil s.stock_moves);
  as_called = refl;
  worth = omega int_laws;
  nonnegative = h;
  books = (refl, refl);
}
adjust_lines-Varied c v (l ∷ ls) s h =
    Ends-bind _
      (λ value t.
        Adjusted (variance_of l.product_id l.system_quantity l.counted_quantity) value s t)
      _ _ s (record_adjustment-Adjusted _ l.system_quantity l.counted_quantity s)
      λ value t one.
        Ends-map (λ after u. Varied (l ∷ ls) v after s u)
          (λ after u. Varied ls (add_variance v value) after t u) _
          (adjust_lines-Varied c (add_variance v value) ls t (add_variance-Nonnegative v value h))
          λ after u rest. record {
            moves = one.moves ++ rest.moves;
            recorded =
                rest.recorded
                ∙ ap (λ (m : List StockMove). m ++ rest.moves) one.recorded
                ∙ append_assoc s.stock_moves one.moves rest.moves;
            as_called =
                map-append one.moves rest.moves
                ∙ ap (λ (c : List (Uuid × Quantity)). c ++ map change_of rest.moves) one.as_called
                ∙ ap
                    (λ (c : List (Uuid × Quantity)).
                      variance_of l.product_id l.system_quantity l.counted_quantity ++ c)
                    rest.as_called;
            worth =
                rest.worth
                ∙ ap (λ (x : ℤ). x +ℤ sum_by value_of rest.moves) (net-add_variance v value)
                ∙ ap (λ (x : ℤ). net v +ℤ x +ℤ sum_by value_of rest.moves) one.worth
                ∙ assoc (net v) (sum_by value_of one.moves) (sum_by value_of rest.moves)
                ∙ ap (λ (x : ℤ). net v +ℤ x) (sym (sum_by-append value_of one.moves rest.moves));
            nonnegative = rest.nonnegative;
            books = (rest.books.0 ∙ one.books.0, rest.books.1 ∙ one.books.1);
          }
