-- ===== src/Operations/Assets.antt =====
-- backend/src/assets/fixed-assets.ts: what each operation does to the books.
use advanced_accountancy.Prelude.{refl, List, [], ◌∷◌}
use advanced_accountancy.Tx.Keeps.{Keeps, Keeps-pure, Keeps-bind}
use advanced_accountancy.Schema.{Uuid, Day, DepreciationSchedule, Db}
use advanced_accountancy.Assets
use advanced_accountancy.Assets.{
  CreateFixedAssetDto, NewSchedule, create_schedules, update_schedule, post_schedule,
  post_schedules, run_depreciation,
}
use advanced_accountancy.Operations.Books.{Books, books_rules, fresh-Keeps, write-Keeps}

module _ {P : Db → Type 0} (b : Books P) where
  create_schedules-Keeps :
      (asset : Uuid) (ns : List NewSchedule) → Keeps P (create_schedules asset ns)
  unfolding create_schedules
  create_schedules-Keeps asset [] = Keeps-pure tt
  create_schedules-Keeps asset (n ∷ ns) = Keeps-bind _ _ (fresh-Keeps b) λ id.
      Keeps-bind _ _ (write-Keeps b _ (λ s. refl) (λ s. refl)) λ _. create_schedules-Keeps asset ns

  pub asset_created-Keeps :
      (user : Uuid) (dto : CreateFixedAssetDto) → Keeps P (Assets.create user dto)
  unfolding Assets.create
  asset_created-Keeps user dto = search (books_rules, create_schedules-Keeps) depth 24

  update_schedule-Keeps :
      (id : Uuid) (change : DepreciationSchedule → DepreciationSchedule)
      → Keeps P (update_schedule id change)
  unfolding update_schedule
  update_schedule-Keeps id change = search books_rules depth 24

  post_schedule-Keeps :
      (user company : Uuid) (d : DepreciationSchedule) → Keeps P (post_schedule user company d)
  unfolding post_schedule
  post_schedule-Keeps user company d = search (books_rules, update_schedule-Keeps) depth 24

  post_schedules-Keeps :
      (user company : Uuid) (ds : List DepreciationSchedule)
      → Keeps P (post_schedules user company ds)
  unfolding post_schedules
  post_schedules-Keeps user company [] = Keeps-pure []
  post_schedules-Keeps user company (d ∷ ds) =
      Keeps-bind _ _ (post_schedule-Keeps user company d)
        λ updated. Keeps-bind _ _ (post_schedules-Keeps user company ds) λ posted. Keeps-pure _

  pub depreciation_run-Keeps :
      (user company : Uuid) (cutoff : Day) → Keeps P (run_depreciation user company cutoff)
  unfolding run_depreciation
  depreciation_run-Keeps user company cutoff = search (books_rules, post_schedules-Keeps) depth 24
