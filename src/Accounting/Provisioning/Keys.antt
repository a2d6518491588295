-- ===== src/Accounting/Provisioning/Keys.antt =====
-- backend/src/accounting/company-provisioning.service.ts: rows that are created under keys of their
-- own, none of which is taken.
use advanced_accountancy.Prelude.{
  String, ◌≡◌, refl, Bool, true, false, not, ◌&&◌, ◌||◌, none, List, [], ◌∷◌, ◌++◌, arith, find,
  str_eq, All,
}

abbrev has_key_in : {B : Type 0} → (B → String) → String → List B → Bool
has_key_in key k [] = false
has_key_in key k (b ∷ bs) = str_eq k (key b) || has_key_in key k bs

-- No two have the same key.
abbrev pub distinct : {B : Type 0} → (B → String) → List B → Bool
distinct key [] = true
distinct key (b ∷ bs) = not (has_key_in key (key b) bs) && distinct key bs

module _ {B : Type 0} (key : B → String) where
  abbrev pub Apart : String → List B → Type 0
  Apart k bs = All (λ b. str_eq k (key b) ≡ false) bs

  keys_differ : (k : String) (bs : List B) → has_key_in key k bs ≡ false → Apart k bs
  keys_differ k [] h = tt
  keys_differ k (b ∷ bs) h =
      let this : str_eq k (key b) ≡ false = ground arith in
      let rest : has_key_in key k bs ≡ false = ground arith in (this, keys_differ k bs rest)

  pub first_differs :
      (b : B) (bs : List B)
      → distinct key (b ∷ bs) ≡ true
      → Apart (key b) bs × (distinct key bs ≡ true)
  first_differs b bs h =
      let this : has_key_in key (key b) bs ≡ false = ground arith in
      let rest : distinct key bs ≡ true = ground arith in (keys_differ (key b) bs this, rest)

module _ {A B : Type 0} (has_key : String → A → Bool) (key : B → String) where
  -- No row has the key of any of them.
  abbrev pub Free : List B → List A → Type 0
  Free bs rows = All (λ b. find (has_key (key b)) rows ≡ none) bs

  find-snoc :
      (p : A → Bool) (rows : List A) (x : A)
      → find p rows ≡ none
      → p x ≡ false
      → find p (rows ++ x ∷ []) ≡ none
  find-snoc p [] x h k = ground arith
  find-snoc p (r ∷ rows) x h k = ground (arith, find-snoc p rows x)

  pub Free-snoc :
      (bs : List B) (rows : List A) (x : A) (k : String)
      → ((j : String) → str_eq k j ≡ false → has_key j x ≡ false)
      → Apart key k bs
      → Free bs rows
      → Free bs (rows ++ x ∷ [])
  Free-snoc [] rows x k other apart free = tt
  Free-snoc (b ∷ bs) rows x k other apart free = (
    find-snoc (has_key (key b)) rows x free.0 (other (key b) apart.0),
    Free-snoc bs rows x k other apart.1 free.1,
  )

  find-none :
      (p q : A → Bool) (rows : List A)
      → ((a : A) → q a ≡ false → p a ≡ false)
      → find q rows ≡ none
      → find p rows ≡ none
  find-none p q [] h k = refl
  find-none p q (r ∷ rows) h k =
      let first : q r ≡ false = ground arith in
      let rest : find q rows ≡ none = ground arith in rw (h r first) (find-none p q rows h rest)

  -- Where no row is of the owner, no key of the owner is taken.
  pub Free-none :
      (q : A → Bool) (bs : List B) (rows : List A)
      → ((j : String) (a : A) → q a ≡ false → has_key j a ≡ false)
      → find q rows ≡ none
      → Free bs rows
  Free-none q [] rows h k = tt
  Free-none q (b ∷ bs) rows h k =
      (find-none (has_key (key b)) q rows (h (key b)) k, Free-none q bs rows h k)
