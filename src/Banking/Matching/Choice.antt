-- ===== src/Banking/Matching/Choice.antt =====
-- backend/src/banking/matching-engine.service.ts: the loop chooses an invoice of the highest score.
use advanced_accountancy.Prelude.{
  ℕ, ◌≤◌, ◌≡◌, refl, inl, inr, true, ◌&&◌, Option, none, some, List, [], ◌∷◌, arith, ltb, All, In,
  first, later, Bool-cases, if◌then◌else◌,
}
use advanced_accountancy.Prelude.Int.{pos, leb_ℤ}
use advanced_accountancy.Prelude.Text.{Text}
use advanced_accountancy.Schema.{Cents}
use advanced_accountancy.Banking.Matching.{Candidate, Best, score_of, beats, consider, best_of}

-- The score of an invoice that is not paid, and 0 of one that is.
abbrev pub worth : Text → Cents → Candidate → ℕ
worth description amount c =
    if leb_ℤ c.outstanding (pos 0) then 0 else score_of description amount c

abbrev pub limit : Option Best → ℕ
limit none = 0
limit (some b) = b.score

-- What is chosen is one of the invoices, at its worth, which is above 0.
abbrev pub IsChosen : Text → Cents → List Candidate → Option Best → Type 0
IsChosen description amount cs none = Unit
IsChosen description amount cs (some b) =
    In b.candidate cs × (b.score ≡ worth description amount b.candidate) × (1 ≤ b.score)

module _ (description : Text) (amount : Cents) where
  -- One round.
  limits :
      (n : ℕ) (c : Candidate) (best : Option Best)
      → let r =
          if ltb 0 n && beats n best then some (record { candidate = c; score = n }) else best in
        (limit best ≤ limit r) × (n ≤ limit r)
  limits n c none = ground arith
  limits n c (some b) = ground arith

  consider-limit :
      (c : Candidate) (best : Option Best)
      → (limit best ≤ limit (consider description amount c best))
        × (worth description amount c ≤ limit (consider description amount c best))
  unfolding consider
  consider-limit c best = elim (Bool-cases (leb_ℤ c.outstanding (pos 0))) [
    | inl paid ↦ rw paid (omega arith, omega arith)
    | inr unpaid ↦ rw unpaid (limits (score_of description amount c) c best)
  ]

  pick-IsChosen :
      (n : ℕ) (c : Candidate) (cs : List Candidate) (best : Option Best)
      → n ≡ worth description amount c
      → In c cs
      → IsChosen description amount cs best
      → IsChosen description amount cs
          (if ltb 0 n && beats n best then some (record { candidate = c; score = n }) else best)
  pick-IsChosen n c cs best w i h = elim (Bool-cases (ltb 0 n && beats n best)) [
    | inl wins ↦ rw wins (i, w, above n best wins)
    | inr loses ↦ rw loses h
  ]
    where
      above : (n : ℕ) (best : Option Best) → ltb 0 n && beats n best ≡ true → 1 ≤ n
      above n best h = ground arith

  consider-IsChosen :
      (c : Candidate) (cs : List Candidate) (best : Option Best)
      → In c cs
      → IsChosen description amount cs best
      → IsChosen description amount cs (consider description amount c best)
  unfolding consider
  consider-IsChosen c cs best i h = elim (Bool-cases (leb_ℤ c.outstanding (pos 0))) [
    | inl paid ↦ rw paid h
    | inr unpaid ↦
        rw unpaid (pick-IsChosen (score_of description amount c) c cs best (rw unpaid refl) i h)
  ]

  -- The loop over the rest of the invoices.
  best_of-limit :
      (best : Option Best) (cs : List Candidate)
      → (limit best ≤ limit (best_of description amount best cs))
        × All (λ c. worth description amount c ≤ limit (best_of description amount best cs)) cs
  unfolding best_of
  best_of-limit best [] = (omega arith, tt)
  best_of-limit best (c ∷ cs) =
      let step = consider-limit c best in
      let rest = best_of-limit (consider description amount c best) cs in
      (omega (arith, step.0, rest.0), (omega (arith, step.1, rest.0), rest.1))

  best_of-IsChosen :
      (best : Option Best) (cs all : List Candidate)
      → All (λ c. In c all) cs
      → IsChosen description amount all best
      → IsChosen description amount all (best_of description amount best cs)
  unfolding best_of
  best_of-IsChosen best [] all i h = h
  best_of-IsChosen best (c ∷ cs) all i h =
      best_of-IsChosen (consider description amount c best) cs all i.1
        (consider-IsChosen c all best i.0 h)

every_In :
    (all cs : List Candidate) → ((c : Candidate) → In c cs → In c all) → All (λ c. In c all) cs
every_In all [] k = tt
every_In all (c ∷ cs) k = (k c first, every_In all cs (λ d i. k d (later i)))

-- Of any list of invoices, none scores more than what the matching loop returns (0 where it
-- returns nothing), a paid invoice counting as 0; and where it returns one, it is one of the
-- list, unpaid, at its own score, which is above 0.
pub best_of_highest :
    (description : Text) (amount : Cents) (cs : List Candidate)
    → let r = best_of description amount none cs in
      All (λ c. worth description amount c ≤ limit r) cs × IsChosen description amount cs r
best_of_highest description amount cs = (
  (best_of-limit description amount none cs).1,
  best_of-IsChosen description amount none cs cs (every_In cs cs (λ c i. i)) tt,
)
