-- ===== src/Accounting/Engine/Balance.antt =====
-- What an event can post: an active rule, an open period that covers the date, and lines whose
-- debits and credits balance.
use mathlib.Core.Path.{ap₂}
use advanced_accountancy.Prelude.{
  String, ◌≡◌, refl, sym, ap, ◌∙◌, false, Option, none, some, List, [], ◌∷◌, ◌≤◌, arith, sum_by,
  sum_by-map, lookup, str_eq, ltb, All, Bool-cases, inl, inr,
}
use advanced_accountancy.Prelude.Int.{pos, ◌-ℤ◌, ◌+ℤ◌, abs, is_zero, -ℤ_parts, abs_parts}
use advanced_accountancy.Tx.{ok}
use advanced_accountancy.Tx.Ends.{Ends, Ends→, Ends-bind, Ends-trivial, Ends-if}
use advanced_accountancy.Schema.{
  Cents, Side, debit, credit, Amount, JournalEntry, PostingRuleLine, Db, from_cents, to_cents,
}
use advanced_accountancy.Schema.Rounding.{to_cents-from_cents, from_cents-add, from_cents_parts}
use advanced_accountancy.Accounting.Engine.{
  PostEventParams, LineInput, balance_tolerance, amount_of, or_zero, on_debit, on_credit, to_line,
  resolve_account, build_lines, total_debit, total_credit, post_event,
}
use advanced_accountancy.Accounting.Engine.Origin.{Origin, post_event-Origin}

-- Every amount is a whole number of hundredths, as a column of scale 2 is.
abbrev pub IsWhole : Amount → Type 0
IsWhole a = (c : Cents) × (a ≡ from_cents c)

abbrev pub AreWhole : List (String × Amount) → Type 0
AreWhole = All (λ p. IsWhole p.1)

abbrev pub WholeInputs : List LineInput → Type 0
WholeInputs = All (λ l. IsWhole l.debit × IsWhole l.credit)

zero-IsWhole : IsWhole (pos 0)
zero-IsWhole = (pos 0, unfold from_cents in refl)

abbrev MaybeWhole : Option Amount → Type 0
MaybeWhole none = Unit
MaybeWhole (some a) = IsWhole a

lookup-MaybeWhole :
    (amounts : List (String × Amount)) (source : String)
    → AreWhole amounts
    → MaybeWhole (lookup source amounts)
lookup-MaybeWhole [] source w = tt
lookup-MaybeWhole ((k, a) ∷ rest) source w = elim (Bool-cases (str_eq k source)) [
  | inl here ↦ rw here w.0
  | inr there ↦ rw there (lookup-MaybeWhole rest source w.1)
]

or_zero-IsWhole : (o : Option Amount) → MaybeWhole o → IsWhole (or_zero o)
or_zero-IsWhole none w = zero-IsWhole
or_zero-IsWhole (some a) w = w

sides-AreWhole :
    (side : Side) (a : Amount) → IsWhole a → IsWhole (on_debit side a) × IsWhole (on_credit side a)
sides-AreWhole debit a w = (w, zero-IsWhole)
sides-AreWhole credit a w = (zero-IsWhole, w)

build_lines-WholeInputs :
    (params : PostEventParams) (ls : List PostingRuleLine) (s : Db)
    → AreWhole params.amounts
    → Ends (λ inputs t. WholeInputs inputs) (build_lines params ls s)
unfolding build_lines
build_lines-WholeInputs params [] s w = tt
build_lines-WholeInputs params (l ∷ ls) s w =
    let amount = amount_of params.amounts l.amount_source in
    let whole : IsWhole amount =
      or_zero-IsWhole _ (lookup-MaybeWhole params.amounts l.amount_source w) in
    Ends-if _ (is_zero amount) _ _ s (build_lines-WholeInputs params ls s w) (
      Ends-bind _ (λ a t. Unit)
        (resolve_account params.company_id l.account_resolver params.account_overrides) _ s
        (Ends-trivial _)
        λ a t _.
          Ends-bind _ (λ inputs t. WholeInputs inputs) (build_lines params ls) _ t
            (build_lines-WholeInputs params ls t w)
            λ inputs u rest. (sides-AreWhole l.side amount whole, rest))

-- The totals of an entry, as stored.
abbrev pub entry_debits : JournalEntry → Cents
entry_debits e = sum_by (λ l. l.debit) e.lines

abbrev pub entry_credits : JournalEntry → Cents
entry_credits e = sum_by (λ l. l.credit) e.lines

stored_exact : (a : Amount) → IsWhole a → a ≡ from_cents (to_cents a)
stored_exact a (c, e) = e ∙ ap from_cents (sym (ap to_cents e ∙ to_cents-from_cents c))

-- Where every number is whole, the stored numbers sum to what the numbers sum to.
stored_sum :
    (f : LineInput → Amount) (inputs : List LineInput)
    → All (λ l. IsWhole (f l)) inputs
    → sum_by f inputs ≡ from_cents (sum_by (λ l. to_cents (f l)) inputs)
stored_sum f [] w = unfold from_cents in refl
stored_sum f (l ∷ inputs) w =
    ap₂ ◌+ℤ◌ (stored_exact (f l) w.0) (stored_sum f inputs w.1)
    ∙ sym (from_cents-add (to_cents (f l)) (sum_by (λ l. to_cents (f l)) inputs))

IsWhole-debits : (inputs : List LineInput) → WholeInputs inputs → All (λ l. IsWhole l.debit) inputs
IsWhole-debits [] w = tt
IsWhole-debits (l ∷ inputs) w = (w.0.0, IsWhole-debits inputs w.1)

IsWhole-credits :
    (inputs : List LineInput) → WholeInputs inputs → All (λ l. IsWhole l.credit) inputs
IsWhole-credits [] w = tt
IsWhole-credits (l ∷ inputs) w = (w.0.1, IsWhole-credits inputs w.1)

within_a_cent :
    (d c : Cents)
    → ltb balance_tolerance (abs (from_cents d -ℤ from_cents c)) ≡ false
    → abs (d -ℤ c) ≤ 1
within_a_cent d c h =
    let k : abs (from_cents d -ℤ from_cents c) ≤ 1000000 = ground arith in
    omega (
      arith,
      from_cents_parts d,
      from_cents_parts c,
      -ℤ_parts d c,
      -ℤ_parts (from_cents d) (from_cents c),
      abs_parts (d -ℤ c),
      abs_parts (from_cents d -ℤ from_cents c),
    )

-- The inputs' totals are the stored totals of the entry.
pub stored_totals :
    (params : PostEventParams) (s : Db) (e : JournalEntry) (o : Origin params s e)
    → AreWhole params.amounts
    → (total_debit o.inputs ≡ from_cents (entry_debits e))
      × (total_credit o.inputs ≡ from_cents (entry_credits e))
stored_totals params s e o w =
    let whole : WholeInputs o.inputs =
      Ends→ _ (build_lines params _ s) o.inputs s o.built (build_lines-WholeInputs params _ s w) in
    rw o.entry (
      rw
        (
          sum_by-map (λ l. l.debit) (to_line params.dimensions) o.inputs,
          sum_by-map (λ l. l.credit) (to_line params.dimensions) o.inputs,
        )
        (
          stored_sum (λ l. l.debit) o.inputs (IsWhole-debits o.inputs whole),
          stored_sum (λ l. l.credit) o.inputs (IsWhole-credits o.inputs whole),
        ))

-- Of an event whose amounts are whole hundredths, the stored lines balance to within one hundredth.
pub post_event_balanced :
    (params : PostEventParams) (s t : Db) (e : JournalEntry)
    → AreWhole params.amounts
    → post_event params s ≡ ok (e, t)
    → abs (entry_debits e -ℤ entry_credits e) ≤ 1
post_event_balanced params s t e w p =
    let o = post_event-Origin params s t e p in
    let totals = stored_totals params s e o w in
    within_a_cent (entry_debits e) (entry_credits e) (rw (← totals.0, ← totals.1) o.within)
