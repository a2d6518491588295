-- ===== src/Assets/Marked.antt =====
-- backend/src/assets/fixed-assets.ts: what marking a schedule leaves of the list of those due.
use mathlib.Core.Path.{subst}
use advanced_accountancy.Prelude.{
  ℕ, ◌≡◌, ◌≢◌, refl, inl, inr, true, false, List, [], ◌∷◌, arith, ◌==◌, eq→≡, modify_first, All, In,
  first, later, Bool-cases,
}
use advanced_accountancy.Schema.{Uuid, Day, FixedAsset, DepreciationSchedule, Db}
use advanced_accountancy.Assets.{schedule_has_id, is_due, mark_posted}

-- No two schedules have the same id: the primary key.
abbrev pub HaveOwnIds : List DepreciationSchedule → Type 0
HaveOwnIds [] = Unit
HaveOwnIds (d ∷ rows) = All (λ e. e.id ≢ d.id) rows × HaveOwnIds rows

differs : (a b : ℕ) → (a == b) ≡ false → a ≢ b
differs a b h e = ground arith

module _ (company_id : Uuid) (cutoff : Day) (assets : List FixedAsset) where
  -- What is due is still to come in the loop.
  abbrev pub IsListed : List Uuid → DepreciationSchedule → Type 0
  IsListed ids d = is_due company_id cutoff assets d ≡ true → In d.id ids

  pub record Pending (ids : List Uuid) (x : Db) : Type 0 where
    pub same_assets : x.fixed_assets ≡ assets
    pub own_ids : HaveOwnIds x.depreciation_schedules
    pub listed : All (IsListed ids) x.depreciation_schedules

  -- A row that is marked is not due any more, and no other row changes.
  In-other : (i : Uuid) (ids : List Uuid) (j : Uuid) → j ≢ i → In j (i ∷ ids) → In j ids
  In-other i ids j ne first = absurd (ne refl)
  In-other i ids j ne (later x) = x

  mark_tail :
      (i : Uuid) (ids : List Uuid) (rows : List DepreciationSchedule)
      → All (λ e. e.id ≢ i) rows
      → All (IsListed (i ∷ ids)) rows
      → All (IsListed ids) rows
  mark_tail i ids [] o l = tt
  mark_tail i ids (d ∷ rows) o l =
      (λ h. In-other i ids d.id o.0 (l.0 h), mark_tail i ids rows o.1 l.1)

  not_due_now :
      (e : Uuid) (n : Day) (ids : List Uuid) (d : DepreciationSchedule)
      → IsListed ids (mark_posted e n d)
  not_due_now e n ids d h = ground arith

  pub mark-IsListed :
      (i e : Uuid) (n : Day) (ids : List Uuid) (rows : List DepreciationSchedule)
      → HaveOwnIds rows
      → All (IsListed (i ∷ ids)) rows
      → All (IsListed ids) (modify_first (schedule_has_id i) (mark_posted e n) rows)
  mark-IsListed i e n ids [] o l = tt
  mark-IsListed i e n ids (d ∷ rows) o l = elim (Bool-cases (schedule_has_id i d)) [
    | inl this ↦ rw this (
      not_due_now e n ids d,
      mark_tail i ids rows (subst (λ j. All (λ r. r.id ≢ j) rows) (eq→≡ d.id i this) o.0) l.1,
    )
    | inr other ↦ rw other (
      λ h. In-other i ids d.id (differs d.id i other) (l.0 h),
      mark-IsListed i e n ids rows o.1 l.1,
    )
  ]

marked_ids :
    (j i e : Uuid) (n : Day) (rows : List DepreciationSchedule)
    → All (λ r. r.id ≢ j) rows
    → All (λ r. r.id ≢ j) (modify_first (schedule_has_id i) (mark_posted e n) rows)
marked_ids j i e n [] o = tt
marked_ids j i e n (d ∷ rows) o = elim (Bool-cases (schedule_has_id i d)) [
  | inl this ↦ rw this o
  | inr other ↦ rw other (o.0, marked_ids j i e n rows o.1)
]

pub marked-HaveOwnIds :
    (i e : Uuid) (n : Day) (rows : List DepreciationSchedule)
    → HaveOwnIds rows
    → HaveOwnIds (modify_first (schedule_has_id i) (mark_posted e n) rows)
marked-HaveOwnIds i e n [] o = tt
marked-HaveOwnIds i e n (d ∷ rows) o = elim (Bool-cases (schedule_has_id i d)) [
  | inl this ↦ rw this o
  | inr other ↦ rw other (marked_ids d.id i e n rows o.0, marked-HaveOwnIds i e n rows o.1)
]
