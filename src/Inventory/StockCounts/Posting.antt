-- ===== src/Inventory/StockCounts/Posting.antt =====
-- Posting a count: the adjustments, and the event for their value.
use advanced_accountancy.Prelude.{
  map, ◌≡◌, refl, ◌∙◌, ◌⊎◌, inl, inr, ◌||◌, some, true, false, List, ◌++◌, find, sum_by, Bool-cases,
  Option-cases, arith,
}
use advanced_accountancy.Prelude.Int.{ℤ, pos, ◌+ℤ◌, ◌-ℤ◌, ltb_ℤ, int_laws}
use advanced_accountancy.Tx.{pure, ok, ◌>>=◌, ◌>>◌}
use advanced_accountancy.Tx.Keeps.{Keeps, Keeps-by, Keeps-pure, Keeps-bind}
use advanced_accountancy.Tx.Ends.{
  Ends, Ends→, Ends-intro, Ends-bind, Ends-gets, Ends-or_throw, Ends-throw_if,
}
use advanced_accountancy.Schema.{
  Uuid, Company, company_has_id, StockCount, StockMove, doc_draft, doc_eq, JournalEntry, AuditLog,
  Db,
}
use advanced_accountancy.Audit.{record_audit, record_audit-Keeps}
use advanced_accountancy.Accounting.Engine.{post_event}
use advanced_accountancy.Accounting.Engine.Frame.{post_event-Frame}
use advanced_accountancy.Accounting.Engine.Update.{true_of_not}
use advanced_accountancy.Inventory.Stock.{SameBooks}
use advanced_accountancy.Inventory.StockCounts.{
  Variances, count_has_id, count_event, post_variance, mark_posted, update_count, post,
}
use advanced_accountancy.Inventory.StockCounts.Variance.{
  value_of, change_of, variances, net, Nonnegative, Varied, adjust_lines-Varied,
}

-- What is posted for the amounts of a count: nothing where neither is positive, one event otherwise.
abbrev pub Entered : Uuid → StockCount → Variances → Db → Db → Type 0
Entered user_id c v s u =
    ((ltb_ℤ (pos 0) v.increase_amount || ltb_ℤ (pos 0) v.decrease_amount ≡ false) × (u ≡ s))
    ⊎ ((company : Company) × (find (company_has_id c.company_id) s.companies ≡ some company)
        × (e : JournalEntry) × (post_event (count_event user_id c company v) s ≡ ok (e, u)))

post_variance-Ends :
    (user_id : Uuid) (c : StockCount) (v : Variances) (s : Db)
    → Ends
        (λ o u. Entered user_id c v s u × (u.stock_moves ≡ s.stock_moves))
        (post_variance user_id c v s)
unfolding post_variance
post_variance-Ends user_id c v s =
    elim (Bool-cases (ltb_ℤ (pos 0) v.increase_amount || ltb_ℤ (pos 0) v.decrease_amount)) [
      | inl some_value ↦ rw some_value (
          Ends-gets _ _ _ s (
            Ends-or_throw _ _ _ _ s λ company row.
              Ends-bind _
                (λ e u.
                  (post_event (count_event user_id c company v) s ≡ ok (e, u))
                  × (u.stock_moves ≡ s.stock_moves))
                _ _ s
                (Ends-intro
                  (λ e u.
                    (post_event (count_event user_id c company v) s ≡ ok (e, u))
                    × (u.stock_moves ≡ s.stock_moves))
                  _
                  (λ e u run. (
                    run,
                    (post_event-Frame {P = λ x. x.stock_moves ≡ s.stock_moves} (λ x q i j g h. h)
                          (count_event user_id c company v)).at
                        s refl e u run,
                  )))
                λ e u ran. (inr (company, row, e, ran.0), ran.1)))
      | inr no_value ↦ rw no_value (inl (refl, refl), refl)
    ]

update_count-Keeps :
    {P : Db → Type 0} (id : Uuid) (change : StockCount → StockCount)
    → ((s : Db) (l : List StockCount) → P s → P (record s { stock_counts = l }))
    → Keeps P (update_count id change)
unfolding update_count ◌>>=◌
update_count-Keeps id change k = Keeps-by λ s h.
    elim (Option-cases (find (count_has_id id) s.stock_counts)) [
      | inl missing ↦ rw missing tt
      | inr (before, found) ↦ rw found (k s _ h)
    ]

-- The last two steps.
finish-Keeps :
    {P : Db → Type 0} (id : Uuid) (log : AuditLog)
    → ((s : Db) (l : List StockCount) → P s → P (record s { stock_counts = l }))
    → ((s : Db) (l : List AuditLog) → P s → P (record s { audit_logs = l }))
    → Keeps P (do posted ← update_count id mark_posted; record_audit log; pure posted)
finish-Keeps id log k l =
    Keeps-bind _ _ (update_count-Keeps id mark_posted k)
      λ posted. Keeps-bind _ _ (record_audit-Keeps log l) λ _. Keeps-pure posted

-- What posting a count did.
pub record CountPosted (user_id id : Uuid) (s t : Db) : Type 0 where
  pub count : StockCount
  pub found : find (count_has_id id) s.stock_counts ≡ some count
  pub draft : doc_eq count.status doc_draft ≡ true
  pub moves : List StockMove
  pub recorded : t.stock_moves ≡ s.stock_moves ++ moves
  pub as_called : map change_of moves ≡ variances count.lines
  pub amounts : Variances
  pub worth : net amounts ≡ sum_by value_of moves
  pub nonnegative : Nonnegative amounts
  pub before : Db
  pub adjusted : (before.stock_moves ≡ s.stock_moves ++ moves) × SameBooks s before
  pub after : Db
  pub entered : Entered user_id count amounts before after
  pub books : SameBooks after t

zero_net : (x : ℤ) → pos 0 -ℤ pos 0 +ℤ x ≡ x
zero_net x = omega int_laws

post-Ends :
    (user_id id : Uuid) (s : Db) → Ends (λ c t. CountPosted user_id id s t) (post user_id id s)
unfolding post
post-Ends user_id id s = Ends-gets _ _ _ s (
    Ends-or_throw _ _ _ _ s λ count found. Ends-throw_if _ _ _ _ s λ draft.
      let none_yet : Variances = record { increase_amount = pos 0; decrease_amount = pos 0 } in
      Ends-bind _ (λ v t. Varied count.lines none_yet v s t) _ _ s
        (adjust_lines-Varied count none_yet count.lines s (omega arith, omega arith))
        λ v t varied.
          Ends-bind _ (λ o u. Entered user_id count v t u × (u.stock_moves ≡ t.stock_moves)) _ _ t
            (post_variance-Ends user_id count v t)
            λ o u entered.
              Ends-intro (λ c w. CountPosted user_id id s w) _
                λ c w run. record {
                  count = count;
                  found = found;
                  draft = true_of_not _ draft;
                  moves = varied.moves;
                  recorded =
                      (finish-Keeps {P = λ x. x.stock_moves ≡ s.stock_moves ++ varied.moves} id _
                          (λ x l h. h) (λ x l h. h)).at
                        u (entered.1 ∙ varied.recorded) c w run;
                  as_called = varied.as_called;
                  amounts = v;
                  worth = varied.worth ∙ zero_net (sum_by value_of varied.moves);
                  nonnegative = varied.nonnegative;
                  before = t;
                  adjusted = (varied.recorded, varied.books);
                  after = u;
                  entered = entered.0;
                  books =
                      (finish-Keeps {P = SameBooks u} id _ (λ x l h. h) (λ x l h. h)).at u
                        (refl, refl) c w run;
                })

-- A count that posts was found in draft; the moves that it added are one for each line whose
-- count differs from the system's quantity, of the line's product and the difference, in their
-- order, while the journal and the account balances stayed as they were before the call; neither
-- of its two amounts is negative, and the first less the second is the sum of the moves'
-- quantities at their unit costs; then an event of the count's company with these amounts posts
-- unless neither is positive; and the journal and the account balances end as the event left
-- them, or, where there is no event, as they were before the call.
pub post-CountPosted :
    (user_id id : Uuid) (s t : Db) (c : StockCount)
    → post user_id id s ≡ ok (c, t)
    → CountPosted user_id id s t
post-CountPosted user_id id s t c e = Ends→ _ (post user_id id s) c t e (post-Ends user_id id s)
