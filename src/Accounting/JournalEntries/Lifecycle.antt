-- ===== src/Accounting/JournalEntries/Lifecycle.antt =====
-- The life of a journal entry as a relation on statuses, and what each write of the journal may do
-- to the entries that are there.
use mathlib.Core.Path.{subst}
use advanced_accountancy.Prelude.{
  ◌≡◌, refl, ap, ◌∙◌, inl, inr, Option, some, List, [], ◌∷◌, ◌++◌, arith, ◌==◌, find, find-append,
  modify_first, Bool-cases,
}
use advanced_accountancy.Schema.{
  Uuid, Day, JournalEntry, JournalStatus, draft, submitted, approved, posted, reversed,
}
use advanced_accountancy.Accounting.Engine.{has_id}

-- draft -> submitted -> approved -> posted -> reversed
pub data Edge : JournalStatus → JournalStatus → Type 0 where
  submit : Edge draft submitted
  approve : Edge submitted approved
  post : Edge approved posted
  reverse : Edge posted reversed

pub data Leads (a : JournalStatus) : JournalStatus → Type 0 where
  here : Leads a a
  onward : {b c : JournalStatus} → Leads a b → Edge b c → Leads a c

-- An entry keeps all but its status and the time of its posting, and its status moves along.
pub record Follows (e e' : JournalEntry) : Type 0 where
  pub same : e' ≡ record e { status = e'.status; posted_at = e'.posted_at }
  pub path : Leads e.status e'.status

-- Every entry that is there stays, under its id, and follows its life.
abbrev pub Preserves : List JournalEntry → List JournalEntry → Type 0
Preserves j j' =
    (id : Uuid) (e : JournalEntry)
    → find (has_id id) j ≡ some e
    → (e' : JournalEntry) × (find (has_id id) j' ≡ some e') × Follows e e'

Follows-refl : (e : JournalEntry) → Follows e e
Follows-refl e = record { same = refl; path = here }

Leads-trans : {a b c : JournalStatus} → Leads a b → Leads b c → Leads a c
Leads-trans p here = p
Leads-trans p (onward q x) = onward (Leads-trans p q) x

pub Follows-trans : (a b c : JournalEntry) → Follows a b → Follows b c → Follows a c
Follows-trans a b c f g = record {
  same =
      g.same
      ∙ ap (λ (x : JournalEntry). record x { status = c.status; posted_at = c.posted_at }) f.same;
  path = Leads-trans f.path g.path;
}

pub Preserves-refl : (j : List JournalEntry) → Preserves j j
Preserves-refl j id e h = (e, h, Follows-refl e)

pub Preserves-trans : (i j k : List JournalEntry) → Preserves i j → Preserves j k → Preserves i k
Preserves-trans i j k p q id e h =
    let (b, hb, fb) = p id e h in let (c, hc, fc) = q id b hb in (c, hc, Follows-trans e b c fb fc)

pub Preserves-append : (j : List JournalEntry) (e : JournalEntry) → Preserves j (j ++ e ∷ [])
Preserves-append j e id x h = (x, find-append (has_id id) j (e ∷ []) h, Follows-refl x)

-- Changing the status of the row that is found, along an edge.
pub Preserves-change :
    (id : Uuid) (to : JournalStatus) (at : Option Day → Option Day) (j : List JournalEntry)
    (b : JournalEntry)
    → find (has_id id) j ≡ some b
    → Edge b.status to
    → Preserves j
        (modify_first (has_id id) (λ e. record e { status = to; posted_at = at e.posted_at }) j)
Preserves-change id to at [] b h edge i e k = ground arith
Preserves-change id to at (x ∷ j) b h edge i e k = elim (Bool-cases (x.id == id)) [
  | inl hit ↦ rw hit (elim (Bool-cases (x.id == i)) [
    | inl own ↦
        let first : b ≡ x = ground arith in
        let same : x ≡ e = ground arith in
        let changed : Edge x.status to =
          subst (λ (y : JournalEntry). Edge y.status to) first edge in
        (
          change x,
          rw own,
          subst (λ y. Follows y (change x)) same
              (record { same = refl; path = onward here changed }),
        )
    | inr other ↦ (e, rw other (ground arith), Follows-refl e)
  ])
  | inr miss ↦ rw miss (elim (Bool-cases (x.id == i)) [
    | inl own ↦ (e, rw own (ground arith), Follows-refl e)
    | inr other ↦
        let (e', found, f) = Preserves-change id to at j b (ground arith) edge i e (ground arith) in
        (e', rw other found, f)
  ])
]
  where
    change : JournalEntry → JournalEntry
    change y = record y { status = to; posted_at = at y.posted_at }
