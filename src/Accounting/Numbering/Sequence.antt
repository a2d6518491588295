-- ===== src/Accounting/Numbering/Sequence.antt =====
-- What a call of `next` returns and changes.
use advanced_accountancy.Prelude.{
  ℕ, suc, ◌<◌, ◌≡◌, refl, ◌≢◌, sym, ◌∙◌, ap, inl, inr, ◌⊎◌, String, Bool, true, false, Option, none,
  some, List, [], ◌∷◌, ◌++◌, arith, ◌==◌, eq_self, find, modify_first, str_eq, eq_iff, Bool-cases,
  if◌then◌else◌, All, All-append, find-holds, find-apart, find-append_none, find-snoc_other,
}
use mathlib.Core.Path.{subst}
use advanced_accountancy.Prelude.Text.{Text}
use advanced_accountancy.Tx.{ok, ◌>>=◌}
use advanced_accountancy.Tx.Keeps.{Keeps, Keeps-by, Holds}
use advanced_accountancy.Tx.Ends.{Ends, Ends→}
use advanced_accountancy.Schema.{Uuid, DocumentNumberSequence, Db}
use advanced_accountancy.Accounting.Numbering.{
  next, take_number, is_sequence, advance, first_sequence,
}
use advanced_accountancy.Accounting.Numbering.Format.{format_number, format_number-injective}

abbrev pub number_of : Option DocumentNumberSequence → ℕ
number_of none = 1
number_of (some q) = q.next_number

-- The number that the next document of a type will get.
abbrev pub upcoming : Uuid → String → Db → ℕ
upcoming c d s = number_of (find (is_sequence c d) s.sequences)

module _ {P : Db → Type 0} (c : Uuid) (d : String) (prefix : Text)
    (k : (s : Db) (q : List DocumentNumberSequence) (i : Uuid)
      → P s
      → P (record s { sequences = q; next_id = i })) where
  take_number-Holds :
      (o : Option DocumentNumberSequence) (s : Db) → P s → Holds P (take_number c d prefix o s)
  unfolding take_number ◌>>=◌
  take_number-Holds none s h = k s _ _ h
  take_number-Holds (some q) s h = k s _ _ h

  -- A step that touches only the sequences and the supply of ids keeps what does not read them.
  pub next-Keeps : Keeps P (next c d prefix)
  unfolding next ◌>>=◌
  next-Keeps = Keeps-by λ s h. take_number-Holds (find (is_sequence c d) s.sequences) s h

abbrev same_id : Uuid → DocumentNumberSequence → Bool
same_id i q = q.id == i

-- No two rows have one id, and every id has been drawn.
abbrev pub DistinctIds : List DocumentNumberSequence → Type 0
DistinctIds [] = Unit
DistinctIds (q ∷ qs) = (find (same_id q.id) qs ≡ none) × DistinctIds qs

pub record SequencesValid (s : Db) : Type 0 where
  pub distinct : DistinctIds s.sequences
  pub drawn : All (λ q. q.id < s.next_id) s.sequences

-- Advancing the row that a test found is what the test finds afterwards.
find-advance :
    (c : Uuid) (d : String) (qs : List DocumentNumberSequence) (q : DocumentNumberSequence)
    → DistinctIds qs
    → find (is_sequence c d) qs ≡ some q
    → find (is_sequence c d) (modify_first (same_id q.id) advance qs) ≡ some (advance q)
find-advance c d [] q v h = ground arith
find-advance c d (x ∷ qs) q v h = elim (Bool-cases (is_sequence c d x)) [
  | inl here ↦ let e : x ≡ q = ground arith in rw (← e) (rw (eq_self x.id) (rw here))
  | inr there ↦
      let found : find (is_sequence c d) qs ≡ some q = ground arith in
      let other : (q.id == x.id) ≡ false =
        find-apart (is_sequence c d) (same_id x.id) qs found v.0 in
      let other' : (x.id == q.id) ≡ false = ground arith in
      rw other' (rw there (find-advance c d qs q v.1 found))
]

-- What another test finds is as it was.
find-advance_other :
    (c c' : Uuid) (d d' : String) (qs : List DocumentNumberSequence) (q : DocumentNumberSequence)
    → DistinctIds qs
    → find (is_sequence c d) qs ≡ some q
    → is_sequence c' d' q ≡ false
    → find (is_sequence c' d') (modify_first (same_id q.id) advance qs)
      ≡ find (is_sequence c' d') qs
find-advance_other c c' d d' [] q v h n = ground arith
find-advance_other c c' d d' (x ∷ qs) q v h n = elim (Bool-cases (is_sequence c d x)) [
  | inl here ↦
      let e : x ≡ q = ground arith in
      rw (← e) (rw (eq_self x.id) (rw (subst (λ y. is_sequence c' d' y ≡ false) (sym e) n)))
  | inr there ↦
      let found : find (is_sequence c d) qs ≡ some q = ground arith in
      let other : (q.id == x.id) ≡ false =
        find-apart (is_sequence c d) (same_id x.id) qs found v.0 in
      let other' : (x.id == q.id) ≡ false = ground arith in
      rw other' (
        ap (λ (r : Option DocumentNumberSequence). if is_sequence c' d' x then some x else r)
          (find-advance_other c c' d d' qs q v.1 found n))
]

str_eq_self : (d : String) → str_eq d d ≡ true
str_eq_self d = (eq_iff d d).1 refl

-- Another company or another type is another sequence.
abbrev pub Apart : Uuid → String → Uuid → String → Type 0
Apart c d c' d' = (c' ≢ c) ⊎ (d' ≢ d)

Apart-row :
    (c c' : Uuid) (d d' : String) (q : DocumentNumberSequence)
    → Apart c d c' d'
    → is_sequence c d q ≡ true
    → is_sequence c' d' q ≡ false
Apart-row c c' d d' q (inl n) h = ground arith
Apart-row c c' d d' q (inr n) h = ground (arith, eq_iff q.doc_type d, eq_iff q.doc_type d', n')
  where
    n' : q.doc_type ≡ d → q.doc_type ≡ d' → ⊥
    n' a b = n (sym b ∙ a)

-- What a call leaves: its own sequence one further on, every other one where it was.
pub record Advanced (c : Uuid) (d : String) (s t : Db) : Type 0 where
  pub valid : SequencesValid t
  pub own : upcoming c d t ≡ suc (upcoming c d s)
  pub others : (c' : Uuid) (d' : String) → Apart c d c' d' → upcoming c' d' t ≡ upcoming c' d' s

same_id-modify :
    (i j : Uuid) (qs : List DocumentNumberSequence)
    → find (same_id j) qs ≡ none
    → find (same_id j) (modify_first (same_id i) advance qs) ≡ none
same_id-modify i j [] h = refl
same_id-modify i j (x ∷ qs) h = ground (arith, same_id-modify i j qs)

DistinctIds-modify :
    (i : Uuid) (qs : List DocumentNumberSequence)
    → DistinctIds qs
    → DistinctIds (modify_first (same_id i) advance qs)
DistinctIds-modify i [] v = tt
DistinctIds-modify i (x ∷ qs) v =
    ground (arith, same_id-modify i x.id qs, DistinctIds-modify i qs v.1)

drawn-modify :
    (i n : Uuid) (qs : List DocumentNumberSequence)
    → All (λ q. q.id < n) qs
    → All (λ q. q.id < n) (modify_first (same_id i) advance qs)
drawn-modify i n [] v = tt
drawn-modify i n (x ∷ qs) v = ground (arith, drawn-modify i n qs v.1)

drawn_later :
    (n : Uuid) (qs : List DocumentNumberSequence)
    → All (λ q. q.id < n) qs
    → All (λ q. q.id < suc n) qs
drawn_later n [] v = tt
drawn_later n (x ∷ qs) v = (omega arith, drawn_later n qs v.1)

DistinctIds-snoc :
    (qs : List DocumentNumberSequence) (q : DocumentNumberSequence)
    → DistinctIds qs
    → All (λ x. x.id < q.id) qs
    → DistinctIds (qs ++ q ∷ [])
DistinctIds-snoc [] q v b = (refl, tt)
DistinctIds-snoc (x ∷ qs) q v b =
    (find-snoc_other (same_id x.id) qs q (ground arith) ∙ v.0, DistinctIds-snoc qs q v.1 b.1)

first_sequence_found :
    (i c : Uuid) (d : String) (prefix : Text) → is_sequence c d (first_sequence i c d prefix) ≡ true
first_sequence_found i c d prefix = rw (eq_self c, str_eq_self d)

module _ (c : Uuid) (d : String) (prefix : Text) (s : Db) (v : SequencesValid s) where
  take_number-Ends :
      (o : Option DocumentNumberSequence)
      → find (is_sequence c d) s.sequences ≡ o
      → Ends
          (λ n t. (n ≡ format_number prefix (number_of o)) × Advanced c d s t)
          (take_number c d prefix o s)
  unfolding take_number ◌>>=◌
  take_number-Ends none e =
      let first = first_sequence s.next_id c d prefix in
      let first_found : is_sequence c d first ≡ true = first_sequence_found s.next_id c d prefix in
      let alone : find (is_sequence c d) (first ∷ []) ≡ some first = rw first_found in
      (
        refl,
        record {
          valid = record {
            distinct = DistinctIds-snoc s.sequences _ v.distinct v.drawn;
            drawn =
                All-append _ s.sequences _ (drawn_later s.next_id s.sequences v.drawn)
                  (omega arith, tt);
          };
          own =
              ap number_of (find-append_none (is_sequence c d) s.sequences (first ∷ []) e ∙ alone)
              ∙ ap (λ (o : Option DocumentNumberSequence). suc (number_of o)) (sym e);
          others = λ c' d' n. ap number_of (
              find-snoc_other (is_sequence c' d') s.sequences first
                (Apart-row c c' d d' first n first_found));
        },
      )
  take_number-Ends (some q) e = (
    refl,
    record {
      valid = record {
        distinct = DistinctIds-modify q.id s.sequences v.distinct;
        drawn = drawn-modify q.id s.next_id s.sequences v.drawn;
      };
      own =
          ap number_of (find-advance c d s.sequences q v.distinct e)
          ∙ ap (λ (o : Option DocumentNumberSequence). suc (number_of o)) (sym e);
      others = λ c' d' n. ap number_of (
          find-advance_other c c' d d' s.sequences q v.distinct e
            (Apart-row c c' d d' q n (find-holds (is_sequence c d) s.sequences e)));
    },
  )

  next-Ends :
      Ends
        (λ n t. (n ≡ format_number prefix (upcoming c d s)) × Advanced c d s t)
        (next c d prefix s)
  unfolding next ◌>>=◌
  next-Ends = take_number-Ends (find (is_sequence c d) s.sequences) refl

-- Where the ids of the sequences are distinct, a call returns the upcoming number of its company and
-- type behind the prefix, moves that sequence on by one and leaves every other sequence alone.
pub next_returns :
    (c : Uuid) (d : String) (prefix : Text) (s t : Db) (n : Text)
    → SequencesValid s
    → next c d prefix s ≡ ok (n, t)
    → (n ≡ format_number prefix (upcoming c d s)) × Advanced c d s t
next_returns c d prefix s t n v e = Ends→ _ (next c d prefix s) n t e (next-Ends c d prefix s v)

-- Two numbers of one company and type, drawn one after the other, differ.
pub next-distinct :
    (c : Uuid) (d : String) (prefix : Text) (s t u : Db) (m n : Text)
    → SequencesValid s
    → next c d prefix s ≡ ok (m, t)
    → next c d prefix t ≡ ok (n, u)
    → m ≢ n
next-distinct c d prefix s t u m n v e f same =
    let (first, moved) = next_returns c d prefix s t m v e in
    let (second, _) = next_returns c d prefix t u n moved.valid f in
    let numbers : upcoming c d s ≡ upcoming c d t =
      format_number-injective prefix _ _ (sym first ∙ same ∙ second) in
    absurd (omega (arith, moved.own))
