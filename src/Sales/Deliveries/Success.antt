-- ===== src/Sales/Deliveries/Success.antt =====
-- backend/src/sales/deliveries.ts: a draft delivery posts where enough is on hand.
use mathlib.Core.Path.{subst}
use advanced_accountancy.Prelude.{◌≡◌, refl, sym, true, some, find, All}
use advanced_accountancy.Prelude.Int.{pos, int_laws}
use advanced_accountancy.Tx.{ok}
use advanced_accountancy.Tx.Commits.{
  Commits, Commits-bind, Commits-gets, Commits-or_throw, Commits-throw_if, Commits-modify,
  false_of_not,
}
use advanced_accountancy.Schema.{
  Uuid, Amount, Company, company_has_id, Delivery, AccountingPeriod, PostingRule, is_open,
  doc_draft, doc_eq, Db,
}
use advanced_accountancy.Tables.Success.{event-Commits, audit-Commits}
use advanced_accountancy.Accounting.Engine.{is_rule, covers}
use advanced_accountancy.Accounting.Engine.Postable.{Postable}
use advanced_accountancy.Accounting.Provisioning.Balance.{starter_posting_rules-Balances, Balances}
use advanced_accountancy.Accounting.Provisioning.Resolve.{Resolves}
use advanced_accountancy.Accounting.Provisioning.Postable.{
  starter_lines, OverridesOwned, balanced_rule-Postable,
}
use advanced_accountancy.Inventory.Stock.{StockAgrees}
use advanced_accountancy.Sales.Deliveries.{
  delivery_has_id, delivery_event, mark_posted, update_delivery, post,
}
use advanced_accountancy.Sales.Deliveries.Cost.{DeliveryPosted, post-DeliveryPosted, post-Agrees}
use advanced_accountancy.Sales.Deliveries.Enough.{IsPositive, IsEnough, draw_lines-Commits}

update_delivery-Commits :
    (id : Uuid) (change : Delivery → Delivery) (s : Db) (before : Delivery)
    → find (delivery_has_id id) s.deliveries ≡ some before
    → Commits (update_delivery id change s)
unfolding update_delivery
update_delivery-Commits id change s before found =
    Commits-gets _ _ s (Commits-or_throw _ _ _ s before found (Commits-modify _ _ s (_, _, refl)))

-- What the tables hold for a delivery to post, beside its stock.
record Ready (id : Uuid) (delivery : Delivery) (company : Company) (rule : PostingRule)
    (period : AccountingPeriod) (s : Db) : Type 0 where
  found : find (delivery_has_id id) s.deliveries ≡ some delivery
  of_company : find (company_has_id delivery.company_id) s.companies ≡ some company
  listed : find (is_rule delivery.company_id "DELIVERY_POSTED") s.posting_rules ≡ some rule
  resolve : All (Resolves delivery.company_id s.chart_of_accounts) rule.lines
  covered :
      find (covers s.fiscal_years delivery.company_id delivery.delivery_date) s.accounting_periods
      ≡ some period

module _ (user_id id : Uuid) (delivery : Delivery) (company : Company) (rule : PostingRule)
    (period : AccountingPeriod) where
  event-Postable :
      (cost : Amount) (s : Db)
      → Ready id delivery company rule period s
      → rule.is_active ≡ true
      → rule.lines ≡ starter_lines "DELIVERY_POSTED"
      → is_open period.status ≡ true
      → Postable (delivery_event user_id delivery company cost) s
  event-Postable cost s r active lines opened =
      let params = delivery_event user_id delivery company cost in
      let balances =
        starter_posting_rules-Balances params.amounts (omega int_laws, omega int_laws) in
      balanced_rule-Postable params s rule period r.listed active r.covered opened r.resolve
        (subst (All (OverridesOwned params s.chart_of_accounts)) (sym lines) (tt, (tt, tt)))
        (subst (Balances params.amounts) (sym lines) balances.1.1.1.1.1.1.0)

  post-Commits :
      (s : Db)
      → Ready id delivery company rule period s
      → doc_eq delivery.status doc_draft ≡ true
      → All IsPositive delivery.lines
      → IsEnough delivery.warehouse_id delivery.lines s
      → rule.is_active ≡ true
      → rule.lines ≡ starter_lines "DELIVERY_POSTED"
      → is_open period.status ≡ true
      → Commits (post user_id id s)
  unfolding post
  post-Commits s ready draft positive enough active lines opened =
      let (cost, t, drawn, still) =
        draw_lines-Commits {P = Ready id delivery company rule period}
          (λ x ms bs r. record {
            found = r.found;
            of_company = r.of_company;
            listed = r.listed;
            resolve = r.resolve;
            covered = r.covered;
          })
          delivery (pos 0) delivery.lines s positive enough ready in
      let (e, u, run, there) =
        event-Commits (λ x. find (delivery_has_id id) x.deliveries ≡ some delivery)
          (delivery_event user_id delivery company cost) t (λ x q i j g h. h) still.found
          (event-Postable cost t still active lines opened) in
      let (d, v, updated) = update_delivery-Commits id (mark_posted e.id) u delivery there in
      Commits-gets _ _ s (
        Commits-or_throw _ _ _ s delivery ready.found (
          Commits-throw_if _ _ _ s (false_of_not _ draft) (
            Commits-bind _ _ s cost t drawn (
              Commits-gets _ _ t (
                Commits-or_throw _ _ _ t company still.of_company (
                  Commits-bind _ _ t e u run
                    (Commits-bind _ _ u d v updated (audit-Commits _ d v))))))))

-- A draft delivery each line of which has a positive quantity, and of each of whose products its
-- warehouse has on hand as much as its lines together ask for, posts, where the stock balances
-- agree with the moves, its company is there and has an active rule for it with the starter
-- rule's lines, the accounts of which are in the chart, and its date is covered by an open
-- period: the call commits; it adds one move for each line, of the line's product and its
-- quantity with the sign turned, in their order, and no other; with these moves added and the
-- journal and the account balances as they were before the call, an event posts whose cost is
-- the sum of the moves' quantities at their unit costs; the journal and the account balances end
-- as that event left them, and the stock balances still agree with the moves.
pub delivery_posts :
    (user_id id : Uuid) (s : Db) (delivery : Delivery) (company : Company) (rule : PostingRule)
    (period : AccountingPeriod)
    → find (delivery_has_id id) s.deliveries ≡ some delivery
    → doc_eq delivery.status doc_draft ≡ true
    → All IsPositive delivery.lines
    → IsEnough delivery.warehouse_id delivery.lines s
    → StockAgrees s
    → find (company_has_id delivery.company_id) s.companies ≡ some company
    → find (is_rule delivery.company_id "DELIVERY_POSTED") s.posting_rules ≡ some rule
    → rule.is_active ≡ true
    → rule.lines ≡ starter_lines "DELIVERY_POSTED"
    → All (Resolves delivery.company_id s.chart_of_accounts) rule.lines
    → find (covers s.fiscal_years delivery.company_id delivery.delivery_date) s.accounting_periods
      ≡ some period
    → is_open period.status ≡ true
    → (d : Delivery) × (t : Db) × (post user_id id s ≡ ok (d, t))
      × (DeliveryPosted user_id id s t × StockAgrees t)
delivery_posts user_id id s delivery company rule period found draft positive enough agrees
      of_company listed active lines resolve covered opened =
    let (d, t, run) =
      post-Commits user_id id delivery company rule period s
        (record {
          found = found;
          of_company = of_company;
          listed = listed;
          resolve = resolve;
          covered = covered;
        })
        draft positive enough active lines opened in
    (
      d,
      t,
      run,
      (post-DeliveryPosted user_id id s t d run, (post-Agrees user_id id).at s agrees d t run),
    )
