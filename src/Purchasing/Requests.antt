-- ===== src/Purchasing/Requests.antt =====
-- backend/src/purchasing/purchase-requests.ts: a request, which is approved once.
use advanced_accountancy.Prelude.{not, Option, none, some, List, [], ◌∷◌, refl, ℕ, suc}
use advanced_accountancy.Prelude.Text.{Text, codes}
use advanced_accountancy.Tx.{
  Tx, pure, gets, or_throw, throw_if, ◌>>=◌, ◌>>◌, not_found, wrong_status,
}
use advanced_accountancy.Schema.{
  Uuid, Day, PurchaseRequest, PurchaseRequestLine, Quantity, doc_approved, doc_draft, doc_eq,
  AuditAction, AuditValue, Db,
}
use advanced_accountancy.Tables.{Table, find_row, create_row, update_row}
use advanced_accountancy.Audit.{record_audit, audit_row}
use advanced_accountancy.Accounting.Numbering.{next}

pub record PurchaseRequestLineDto : Type 0 where
  pub product_id : Uuid
  pub quantity : Quantity

pub record CreatePurchaseRequestDto : Type 0 where
  pub company_id : Uuid
  pub request_date : Day
  pub requested_by : Option Uuid
  pub lines : List PurchaseRequestLineDto

abbrev pub purchase_requests : Table PurchaseRequest
purchase_requests = record {
  rows = λ s. s.purchase_requests;
  set_rows = λ xs s. record s { purchase_requests = xs };
  id_of = λ r. r.id;
  holds = λ xs s. refl;
  audited = λ logs s. refl;
  same_journal = λ xs s. refl;
  same_balances = λ xs s. refl;
}

abbrev pub request_lines : ℕ → List PurchaseRequestLineDto → List PurchaseRequestLine
request_lines n [] = []
request_lines n (l ∷ rest) =
    record { line_no = n; product_id = l.product_id; quantity = l.quantity }
    ∷ request_lines (suc n) rest

-- `dto.requestedBy ?? userId`
abbrev pub or_user : Option Uuid → Uuid → Uuid
or_user none user_id = user_id
or_user (some requested_by) user_id = requested_by

abbrev pub new_request : Uuid → CreatePurchaseRequestDto → Text → Uuid → PurchaseRequest
new_request user_id dto request_number id = record {
  id = id;
  company_id = dto.company_id;
  request_number = request_number;
  request_date = dto.request_date;
  requested_by = some (or_user dto.requested_by user_id);
  status = doc_draft;
  lines = request_lines 1 dto.lines;
}

unfoldable pub create : Uuid → CreatePurchaseRequestDto → Tx Db PurchaseRequest
create user_id dto = do
  request_number ← next dto.company_id "PURCHASE_REQUEST" (codes "PR-")
  request ← create_row purchase_requests (new_request user_id dto request_number)
  record_audit (
      audit_row dto.company_id user_id AuditAction.create "purchase_request" request.id none
        (some (AuditValue.number request_number)))
  pure request

abbrev pub mark_approved : PurchaseRequest → PurchaseRequest
mark_approved r = record r { status = doc_approved }

unfoldable pub approve : Uuid → Uuid → Tx Db PurchaseRequest
approve user_id id = do
  found ← gets (find_row purchase_requests id)
  request ← or_throw found not_found
  throw_if (not (doc_eq request.status doc_draft)) wrong_status
  updated ← update_row purchase_requests id mark_approved
  record_audit
      (audit_row request.company_id user_id AuditAction.approve "purchase_request" id none none)
  pure updated
