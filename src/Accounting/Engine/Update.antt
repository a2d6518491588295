-- ===== src/Accounting/Engine/Update.antt =====
-- What the writes of the journal do where they commit.
use advanced_accountancy.Prelude.{
  ◌≡◌, refl, Bool, true, false, not, some, arith, find, modify_first,
}
use advanced_accountancy.Tx.{ok, throw_if, continue, immutable_row, ◌>>=◌}
use advanced_accountancy.Tx.Ends.{Ends}
use advanced_accountancy.Schema.{Uuid, JournalEntry, JournalStatus, posted, reversed, status_eq, Db}
use advanced_accountancy.Accounting.Engine.{has_id, frozen, update_entry}

-- An update of a row that is found and that the trigger lets through.
pub update_entry_run :
    (id : Uuid) (change : JournalEntry → JournalEntry) (s : Db) (b : JournalEntry)
    → find (has_id id) s.journal_entries ≡ some b
    → frozen b.status (change b).status ≡ false
    → update_entry id change s
      ≡ ok (
        change b,
        record s { journal_entries = modify_first (has_id id) change s.journal_entries },
      )
unfolding update_entry ◌>>=◌
update_entry_run id change s b h f = rw h (rw f)

pub status_eq→≡ : (i j : JournalStatus) → status_eq i j ≡ true → i ≡ j
unfolding status_eq
status_eq→≡ i j h = ground arith

-- The row returned is the changed one, and the table has it in the place of the old one.
abbrev pub Updated :
    Uuid → (JournalEntry → JournalEntry) → JournalEntry → Db → JournalEntry → Db → Type 0
Updated id change b s e t =
    (e ≡ change b)
    × (t ≡ record s { journal_entries = modify_first (has_id id) change s.journal_entries })

-- Whatever the trigger says, an update that commits has changed the row that it finds.
pub update_entry-Ends :
    (id : Uuid) (change : JournalEntry → JournalEntry) (s : Db) (b : JournalEntry)
    → find (has_id id) s.journal_entries ≡ some b
    → Ends (Updated id change b s) (update_entry id change s)
unfolding update_entry ◌>>=◌
update_entry-Ends id change s b h = rw h (settled (frozen b.status (change b).status))
  where
    t : Db
    t = record s { journal_entries = modify_first (has_id id) change s.journal_entries }

    settled :
        (f : Bool)
        → Ends
            (λ e u. (e ≡ change b) × (u ≡ t))
            (continue (throw_if f immutable_row s) (λ _ v. ok (
              change b,
              record v { journal_entries = modify_first (has_id id) change v.journal_entries },
            )))
    settled true = tt
    settled false = (refl, refl)

pub thawed : (j : JournalStatus) → j ≡ posted → frozen j reversed ≡ false
unfolding frozen
thawed j p = rw p

pub true_of_not : (b : Bool) → not b ≡ false → b ≡ true
true_of_not true h = refl
true_of_not false h = cc
