-- ===== src/Assets/Runs.antt =====
-- backend/src/assets/fixed-assets.ts: a run of depreciation leaves nothing due.
use advanced_accountancy.Prelude.{
  ◌≡◌, refl, inl, inr, Bool, true, List, [], ◌∷◌, find, find_many, map, sort_by, insert_by, leb,
  All, In, first, later, Bool-cases, Option-cases,
}
use advanced_accountancy.Tx.{ok, ◌>>=◌}
use advanced_accountancy.Tx.Keeps.{Keeps}
use advanced_accountancy.Tx.Ends.{
  Ends, Ends→, Ends-intro, Ends-bind, Ends-gets, Ends-or_throw, Ends-throw_if,
}
use advanced_accountancy.Schema.{Uuid, Day, Company, FixedAsset, DepreciationSchedule, Db}
use advanced_accountancy.Audit.{record_audit-Keeps}
use advanced_accountancy.Accounting.Engine.{post_event}
use advanced_accountancy.Accounting.Engine.Frame.{post_event-Frame}
use advanced_accountancy.Assets.{
  schedule_has_id, is_due, depreciation_event, mark_posted, update_schedule, post_schedule,
  post_schedules, run_depreciation,
}
use advanced_accountancy.Assets.Marked.{
  HaveOwnIds, IsListed, Pending, mark-IsListed, marked-HaveOwnIds,
}

In-swap :
    (d e f : DepreciationSchedule) (l m : List DepreciationSchedule)
    → (In d (e ∷ l) → In d m)
    → In d (e ∷ f ∷ l)
    → In d (f ∷ m)
In-swap d e f l m k first = later (k first)
In-swap d e f l m k (later first) = first
In-swap d e f l m k (later (later x)) = later (k (later x))

-- What the search finds is in its list, in the order of the dates too.
In-insert_by :
    (d e : DepreciationSchedule) (l : List DepreciationSchedule)
    → In d (e ∷ l)
    → In d (insert_by (λ x. x.period_date) e l)
In-insert_by d e [] x = x
In-insert_by d e (f ∷ l) x = elim (Bool-cases (leb e.period_date f.period_date)) [
  | inl here ↦ rw here x
  | inr there ↦
      rw there (In-swap d e f l (insert_by (λ x. x.period_date) e l) (In-insert_by d e l) x)
]

In-sort_by :
    (d : DepreciationSchedule) (l : List DepreciationSchedule)
    → In d l
    → In d (sort_by (λ x. x.period_date) l)
In-sort_by d [] x = elim x [ ]
In-sort_by d (e ∷ l) first = In-insert_by d e _ first
In-sort_by d (e ∷ l) (later x) = In-insert_by d e _ (later (In-sort_by d l x))

In-find_many :
    (p : DepreciationSchedule → Bool) (d : DepreciationSchedule) (l : List DepreciationSchedule)
    → In d l
    → p d ≡ true
    → In d (find_many p l)
In-find_many p d [] x h = elim x [ ]
In-find_many p d (e ∷ l) first h = rw h first
In-find_many p d (e ∷ l) (later x) h = elim (Bool-cases (p e)) [
  | inl here ↦ rw here (later (In-find_many p d l x h))
  | inr not_here ↦ rw not_here (In-find_many p d l x h)
]

abbrev ids_of : List DepreciationSchedule → List Uuid
ids_of = map (λ d. d.id)

In-ids_of : (d : DepreciationSchedule) (l : List DepreciationSchedule) → In d l → In d.id (ids_of l)
In-ids_of d [] x = elim x [ ]
In-ids_of d (e ∷ l) first = first
In-ids_of d (e ∷ l) (later x) = later (In-ids_of d l x)

-- A predicate of every row, by what it is of a row of the list.
All-from_In :
    {P : DepreciationSchedule → Type 0} (l : List DepreciationSchedule)
    → ((d : DepreciationSchedule) → In d l → P d)
    → All P l
All-from_In [] k = tt
All-from_In (d ∷ l) k = (k d first, All-from_In l (λ e x. k e (later x)))

module _ (user_id company_id : Uuid) (cutoff : Day) (assets : List FixedAsset) where
  event-Pending :
      (ids : List Uuid) (d : DepreciationSchedule) (asset : FixedAsset) (company : Company)
      → Keeps
          (Pending company_id cutoff assets ids)
          (post_event (depreciation_event user_id company_id d asset company))
  event-Pending ids d asset company =
      post_event-Frame
        (λ s q i j g h. record {
          same_assets = h.same_assets;
          own_ids = h.own_ids;
          listed = h.listed;
        })
        (depreciation_event user_id company_id d asset company)

  update-Pending :
      (i e : Uuid) (n : Day) (ids : List Uuid) (s : Db)
      → Pending company_id cutoff assets (i ∷ ids) s
      → Ends (λ d t. Pending company_id cutoff assets ids t) (update_schedule i (mark_posted e n) s)
  unfolding update_schedule ◌>>=◌
  update-Pending i e n ids s h =
      elim (Option-cases (find (schedule_has_id i) s.depreciation_schedules)) [
        | inl missing ↦ rw missing tt
        | inr (before, found) ↦ rw found (record {
          same_assets = h.same_assets;
          own_ids = marked-HaveOwnIds i e n s.depreciation_schedules h.own_ids;
          listed =
              mark-IsListed company_id cutoff assets i e n ids s.depreciation_schedules h.own_ids
                h.listed;
        })
      ]

  post_schedule-Pending :
      (d : DepreciationSchedule) (ids : List Uuid) (s : Db)
      → Pending company_id cutoff assets (d.id ∷ ids) s
      → Ends (λ x t. Pending company_id cutoff assets ids t) (post_schedule user_id company_id d s)
  unfolding post_schedule
  post_schedule-Pending d ids s h = Ends-gets _ _ _ s (
      Ends-or_throw _ _ _ _ s λ asset _. Ends-gets _ _ _ s (
        Ends-or_throw _ _ _ _ s λ company _.
          Ends-bind _ (λ e t. Pending company_id cutoff assets (d.id ∷ ids) t) _ _ s
            (Ends-intro (λ e t. Pending company_id cutoff assets (d.id ∷ ids) t) _
              λ e t run. (event-Pending (d.id ∷ ids) d asset company).at s h e t run)
            λ e t k. Ends-gets _ _ _ t (update-Pending d.id e.id t.now ids t k)))

  post_schedules-Pending :
      (ds : List DepreciationSchedule) (s : Db)
      → Pending company_id cutoff assets (ids_of ds) s
      → Ends (λ x t. Pending company_id cutoff assets [] t) (post_schedules user_id company_id ds s)
  unfolding post_schedules
  post_schedules-Pending [] s h = h
  post_schedules-Pending (d ∷ ds) s h =
      Ends-bind _ (λ x t. Pending company_id cutoff assets (ids_of ds) t) _ _ s
        (post_schedule-Pending d (ids_of ds) s h)
        λ x t k.
          Ends-bind _ (λ y u. Pending company_id cutoff assets [] u) _ _ t
            (post_schedules-Pending ds t k) λ y u l. l

none_due :
    (company_id : Uuid) (cutoff : Day) (assets : List FixedAsset) (rows : List DepreciationSchedule)
    → All (IsListed company_id cutoff assets []) rows
    → find_many (is_due company_id cutoff assets) rows ≡ []
none_due company_id cutoff assets [] l = refl
none_due company_id cutoff assets (d ∷ rows) l =
    elim (Bool-cases (is_due company_id cutoff assets d)) [
      | inl still ↦ elim (l.0 still) [ ]
      | inr done ↦ rw done (none_due company_id cutoff assets rows l.1)
    ]

run_depreciation-Ends :
    (user_id company_id : Uuid) (cutoff : Day) (s : Db)
    → HaveOwnIds s.depreciation_schedules
    → Ends
        (λ x t. Pending company_id cutoff s.fixed_assets [] t)
        (run_depreciation user_id company_id cutoff s)
unfolding run_depreciation
run_depreciation-Ends user_id company_id cutoff s own =
    let ds =
      sort_by (λ d. d.period_date)
        (find_many (is_due company_id cutoff s.fixed_assets) s.depreciation_schedules) in
    let begin : Pending company_id cutoff s.fixed_assets (ids_of ds) s = record {
      same_assets = refl;
      own_ids = own;
      listed = All-from_In s.depreciation_schedules λ d x due.
          In-ids_of d ds (In-sort_by d _ (In-find_many _ d s.depreciation_schedules x due));
    } in
    Ends-gets _ _ _ s (
      Ends-bind _ (λ x t. Pending company_id cutoff s.fixed_assets [] t) _ _ s
        (post_schedules-Pending user_id company_id cutoff s.fixed_assets ds s begin)
        λ x t k. Ends-throw_if _ _ _ _ t λ some_due.
          Ends-bind _ (λ y u. Pending company_id cutoff s.fixed_assets [] u) _ _ t
            (Ends-intro (λ y u. Pending company_id cutoff s.fixed_assets [] u) _
              λ y u run.
                (record_audit-Keeps {P = Pending company_id cutoff s.fixed_assets []} _ (λ v l h.
                    record {
                      same_assets = h.same_assets;
                      own_ids = h.own_ids;
                      listed = h.listed;
                    })).at
                  t k y u run)
            λ y u l. l)

-- Where no two schedules have the same id, a run of depreciation that commits leaves no schedule
-- of the company pending with its date on or before the cutoff, so that the same run again finds
-- nothing due.
pub run_depreciation_clears :
    (user_id company_id : Uuid) (cutoff : Day) (s t : Db) (posted : List DepreciationSchedule)
    → HaveOwnIds s.depreciation_schedules
    → run_depreciation user_id company_id cutoff s ≡ ok (posted, t)
    → find_many (is_due company_id cutoff t.fixed_assets) t.depreciation_schedules ≡ []
run_depreciation_clears user_id company_id cutoff s t posted own e =
    let p =
      Ends→ _ (run_depreciation user_id company_id cutoff s) posted t e
        (run_depreciation-Ends user_id company_id cutoff s own) in
    rw p.same_assets (none_due company_id cutoff s.fixed_assets t.depreciation_schedules p.listed)
