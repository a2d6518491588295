-- ===== src/Sales/Deliveries/Cost.antt =====
-- The cost that a delivery posts is the value of what it takes from stock.
use mathlib.Core.Path.{subst}
use advanced_accountancy.Prelude.{
  ◌≡◌, refl, sym, ap, ◌∙◌, some, true, List, [], ◌∷◌, ◌++◌, find, sum_by, Bool-cases, Option-cases,
  inl, inr,
}
use mathlib.Core.List.{append-nil, append_assoc}
use advanced_accountancy.Prelude.Int.{ℤ, pos, ◌+ℤ◌, ◌*ℤ◌, neg, leb_ℤ, int_laws}
use advanced_accountancy.Tx.{pure, ok, ◌>>=◌, ◌>>◌}
use advanced_accountancy.Tx.Keeps.{Keeps, Keeps-by, Keeps-pure, Keeps-bind, keeps_rules}
use advanced_accountancy.Tx.Ends.{
  Ends, Ends→, Ends-intro, Ends-bind, Ends-gets, Ends-or_throw, Ends-throw_if, Ends-map,
}
use advanced_accountancy.Schema.{
  Uuid, Quantity, Amount, Company, company_has_id, Delivery, DeliveryLine, StockMove, stock_out,
  doc_draft, doc_eq, JournalEntry, AuditLog, Db,
}
use advanced_accountancy.Audit.{record_audit, record_audit-Keeps}
use advanced_accountancy.Accounting.Engine.{PostEventParams, post_event}
use advanced_accountancy.Accounting.Engine.Frame.{post_event-Frame}
use advanced_accountancy.Accounting.Engine.Update.{true_of_not}
use advanced_accountancy.Inventory.{StockMoveContext, IssueCost, record_stock_out}
use advanced_accountancy.Inventory.Stock.{StockAgrees, SameBooks, move_of}
use advanced_accountancy.Inventory.Stock.Steps.{record_stock_out_lem, record_stock_out-Agrees}
use advanced_accountancy.Sales.Deliveries.{
  delivery_has_id, draw_lines, delivery_event, mark_posted, update_delivery, post,
}

-- The value of a move out of stock, in units of 10^-8.
abbrev pub value_out : StockMove → Amount
value_out m = m.unit_cost *ℤ neg m.quantity

neg-neg : (q : ℤ) → neg (neg q) ≡ q
neg-neg q = omega int_laws

-- A move out, of what a line asks for, and nothing else.
record DrawnOne (product : Uuid) (quantity : Quantity) (s : Db) (cost : IssueCost) (t : Db)
    : Type 0 where
  move : StockMove
  recorded : t.stock_moves ≡ s.stock_moves ++ move ∷ []
  of_product : move.product_id ≡ product
  of_quantity : move.quantity ≡ neg quantity
  worth : cost.total_cost ≡ value_out move
  books : SameBooks s t

-- One line.
draw_one :
    (ctx : StockMoveContext) (quantity : Quantity) (s : Db)
    → Ends (λ cost t. DrawnOne ctx.product_id quantity s cost t) (record_stock_out ctx quantity s)
draw_one ctx quantity s = elim (Bool-cases (leb_ℤ quantity (pos 0))) [
  | inl bad ↦ unfold record_stock_out ◌>>=◌ in rw bad tt
  | inr good ↦ elim (record_stock_out_lem ctx quantity s good) [
    | inl (_, refused) ↦ rw refused tt
    | inr (b, _, _, run) ↦ rw run (record {
      move = move_of ctx stock_out (neg quantity) b.average_cost;
      recorded = refl;
      of_product = refl;
      of_quantity = refl;
      worth = ap (λ (q : ℤ). b.average_cost *ℤ q) (sym (neg-neg quantity));
      books = (refl, refl);
    })
  ]
]

-- One move out for each line, in their order.
abbrev pub OnePerLine : List DeliveryLine → List StockMove → Type 0
OnePerLine [] [] = Unit
OnePerLine [] (m ∷ ms) = ⊥
OnePerLine (l ∷ ls) [] = ⊥
OnePerLine (l ∷ ls) (m ∷ ms) =
    (m.product_id ≡ l.product_id) × (m.quantity ≡ neg l.quantity) × OnePerLine ls ms

-- The moves that the loop records, and what it adds to the cost.
pub record Drawn (ls : List DeliveryLine) (before after : Amount) (s t : Db) : Type 0 where
  pub moves : List StockMove
  pub recorded : t.stock_moves ≡ s.stock_moves ++ moves
  pub per_line : OnePerLine ls moves
  pub cost : after ≡ before +ℤ sum_by value_out moves
  pub books : SameBooks s t

draw_lines-Drawn :
    (d : Delivery) (total : Amount) (ls : List DeliveryLine) (s : Db)
    → Ends (λ after t. Drawn ls total after s t) (draw_lines d total ls s)
unfolding draw_lines
draw_lines-Drawn d total [] s = record {
  moves = [];
  recorded = sym (append-nil s.stock_moves);
  per_line = tt;
  cost = omega int_laws;
  books = (refl, refl);
}
draw_lines-Drawn d total (l ∷ ls) s =
    Ends-bind _ (λ cost t. DrawnOne l.product_id l.quantity s cost t) _ _ s
      (draw_one _ l.quantity s)
      λ cost t one.
        Ends-map _ (λ after u. Drawn ls (total +ℤ cost.total_cost) after t u) _
          (draw_lines-Drawn d (total +ℤ cost.total_cost) ls t)
          λ after u rest. record {
            moves = one.move ∷ rest.moves;
            recorded =
                rest.recorded
                ∙ ap (λ (l : List StockMove). l ++ rest.moves) one.recorded
                ∙ append_assoc s.stock_moves (one.move ∷ []) rest.moves;
            per_line = (one.of_product, one.of_quantity, rest.per_line);
            cost =
                rest.cost
                ∙ ap (λ (x : ℤ). total +ℤ x +ℤ sum_by value_out rest.moves) one.worth
                ∙ omega int_laws;
            books = (rest.books.0 ∙ one.books.0, rest.books.1 ∙ one.books.1);
          }

draw_lines-Agrees :
    (d : Delivery) (total : Amount) (ls : List DeliveryLine)
    → Keeps StockAgrees (draw_lines d total ls)
unfolding draw_lines
draw_lines-Agrees d total [] = Keeps-pure total
draw_lines-Agrees d total (l ∷ ls) =
    Keeps-bind _ _ (record_stock_out-Agrees _ l.quantity)
      (λ cost. draw_lines-Agrees d (total +ℤ cost.total_cost) ls)

update_delivery-Keeps :
    {P : Db → Type 0} (id : Uuid) (change : Delivery → Delivery)
    → ((s : Db) (l : List Delivery) → P s → P (record s { deliveries = l }))
    → Keeps P (update_delivery id change)
unfolding update_delivery ◌>>=◌
update_delivery-Keeps id change k = Keeps-by λ s h.
    elim (Option-cases (find (delivery_has_id id) s.deliveries)) [
      | inl missing ↦ rw missing tt
      | inr (before, found) ↦ rw found (k s _ h)
    ]

-- The last two steps.
finish-Keeps :
    {P : Db → Type 0} (id : Uuid) (change : Delivery → Delivery) (log : AuditLog)
    → ((s : Db) (l : List Delivery) → P s → P (record s { deliveries = l }))
    → ((s : Db) (l : List AuditLog) → P s → P (record s { audit_logs = l }))
    → Keeps P (do posted ← update_delivery id change; record_audit log; pure posted)
finish-Keeps id change log k l =
    Keeps-bind _ _ (update_delivery-Keeps id change k)
      λ posted. Keeps-bind _ _ (record_audit-Keeps log l) λ _. Keeps-pure posted

zero_add : (x : ℤ) → pos 0 +ℤ x ≡ x
zero_add x = omega int_laws

delivery-Agrees :
    (id : Uuid) (change : Delivery → Delivery) → Keeps StockAgrees (update_delivery id change)
delivery-Agrees id change = update_delivery-Keeps id change (λ s l h. h)

audit-Agrees : (log : AuditLog) → Keeps StockAgrees (record_audit log)
audit-Agrees log = record_audit-Keeps log (λ s l h. h)

event-Agrees : (params : PostEventParams) → Keeps StockAgrees (post_event params)
event-Agrees params = post_event-Frame (λ s q i j g h. h) params

ruleset agrees_rules = (keeps_rules, draw_lines-Agrees, delivery-Agrees, audit-Agrees, event-Agrees)

-- Posting a delivery keeps what is on hand equal to the sum of the moves.
pub post-Agrees : (user_id id : Uuid) → Keeps StockAgrees (post user_id id)
unfolding post
post-Agrees user_id id = search agrees_rules depth 16

-- What posting a delivery did.
pub record DeliveryPosted (user_id id : Uuid) (s t : Db) : Type 0 where
  pub delivery : Delivery
  pub found : find (delivery_has_id id) s.deliveries ≡ some delivery
  pub draft : doc_eq delivery.status doc_draft ≡ true
  pub moves : List StockMove
  pub recorded : t.stock_moves ≡ s.stock_moves ++ moves
  pub before : Db
  pub drawn : (before.stock_moves ≡ s.stock_moves ++ moves) × SameBooks s before
  pub per_line : OnePerLine delivery.lines moves
  pub company : Company
  pub of_company : find (company_has_id delivery.company_id) before.companies ≡ some company
  pub entry : JournalEntry
  pub after : Db
  pub event :
      post_event (delivery_event user_id delivery company (sum_by value_out moves)) before
      ≡ ok (entry, after)
  pub books : SameBooks after t

post-Ends :
    (user_id id : Uuid) (s : Db) → Ends (λ d t. DeliveryPosted user_id id s t) (post user_id id s)
unfolding post
post-Ends user_id id s = Ends-gets _ _ _ s (
    Ends-or_throw _ _ _ _ s λ delivery found. Ends-throw_if _ _ _ _ s λ draft.
      Ends-bind _ (λ total t. Drawn delivery.lines (pos 0) total s t) _ _ s
        (draw_lines-Drawn delivery (pos 0) delivery.lines s)
        λ total t drawn. Ends-gets _ _ _ t (
          Ends-or_throw _ _ _ _ t λ company row.
            let params = delivery_event user_id delivery company total in
            Ends-bind _
              (λ e u.
                (post_event params t ≡ ok (e, u)) × (u.stock_moves ≡ s.stock_moves ++ drawn.moves))
              _ _ t
              (Ends-intro
                (λ e u.
                  (post_event params t ≡ ok (e, u))
                  × (u.stock_moves ≡ s.stock_moves ++ drawn.moves))
                _
                (λ e u run. (
                  run,
                  (post_event-Frame {P = λ x. x.stock_moves ≡ s.stock_moves ++ drawn.moves}
                        (λ x q i j g h. h) params).at
                      t drawn.recorded e u run,
                )))
              λ e u ran.
                Ends-intro (λ d v. DeliveryPosted user_id id s v) _
                  λ d v run. record {
                    delivery = delivery;
                    found = found;
                    draft = true_of_not _ draft;
                    moves = drawn.moves;
                    recorded =
                        (finish-Keeps {P = λ x. x.stock_moves ≡ s.stock_moves ++ drawn.moves} id
                            (mark_posted e.id) _ (λ x l h. h) (λ x l h. h)).at
                          u ran.1 d v run;
                    before = t;
                    drawn = (drawn.recorded, drawn.books);
                    per_line = drawn.per_line;
                    company = company;
                    of_company = row;
                    entry = e;
                    after = u;
                    event =
                        subst
                          (λ (c : Amount).
                            post_event (delivery_event user_id delivery company c) t ≡ ok (e, u))
                          (drawn.cost ∙ zero_add (sum_by value_out drawn.moves)) ran.0;
                    books =
                        (finish-Keeps {P = SameBooks u} id (mark_posted e.id) _ (λ x l h. h)
                            (λ x l h. h)).at
                          u (refl, refl) d v run;
                  }))

pub post-DeliveryPosted :
    (user_id id : Uuid) (s t : Db) (d : Delivery)
    → post user_id id s ≡ ok (d, t)
    → DeliveryPosted user_id id s t
post-DeliveryPosted user_id id s t d e = Ends→ _ (post user_id id s) d t e (post-Ends user_id id s)
