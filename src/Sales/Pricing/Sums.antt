-- ===== src/Sales/Pricing/Sums.antt =====
-- What the pricing loop gives, and what it leaves alone.
use advanced_accountancy.Prelude.{
  ℕ, suc, ◌≡◌, refl, ap, ◌∙◌, Option, none, some, List, [], ◌∷◌, sum_by, length,
}
use advanced_accountancy.Prelude.Int.{ℤ, ◌+ℤ◌, int_laws}
use advanced_accountancy.Tx.Keeps.{Keeps, Keeps-pure, Keeps-gets, Keeps-bind}
use advanced_accountancy.Tx.Ends.{Ends, Ends-bind, Ends-trivial}
use advanced_accountancy.Schema.{Uuid, Day, Cents, Db}
use advanced_accountancy.Accounting.TaxRates.{current_tax_rate_percent}
use advanced_accountancy.Sales.Pricing.{LineShape, Priced, price_lines, line_total_of, tax_of}

rate-Keeps :
    {P : Db → Type 0} (code : Option Uuid) (day : Day) → Keeps P (current_tax_rate_percent code day)
unfolding current_tax_rate_percent
rate-Keeps none day = Keeps-pure _
rate-Keeps (some code) day = Keeps-gets _

move_in : (s t u : ℤ) → s +ℤ t +ℤ u ≡ s +ℤ (t +ℤ u)
move_in s t u = omega int_laws

module _ {D L : Type 0} (shape : LineShape D L) where
  -- The loop reads the tax rates and writes nothing.
  pub price_lines-Keeps :
      {P : Db → Type 0} (day : Day) (n : ℕ) (subtotal tax : Cents) (ls : List D)
      → Keeps P (price_lines shape day n subtotal tax ls)
  unfolding price_lines
  price_lines-Keeps day n subtotal tax [] = Keeps-pure _
  price_lines-Keeps day n subtotal tax (l ∷ ls) =
      Keeps-bind _ _ (rate-Keeps (shape.tax_code_id l) day) λ rate.
        Keeps-bind _ _
          (price_lines-Keeps day (suc n) (subtotal +ℤ line_total_of shape l)
            (tax +ℤ tax_of (line_total_of shape l) rate) ls)
          λ priced. Keeps-pure _

  -- One line for each line asked for; the subtotal is the sum of their totals.
  pub price_lines-Ends :
      (day : Day) (n : ℕ) (subtotal tax : Cents) (ls : List D) (s : Db)
      → Ends
          (λ (p : Priced L) t.
            (p.subtotal ≡ subtotal +ℤ sum_by shape.total_of p.lines) × (length p.lines ≡ length ls))
          (price_lines shape day n subtotal tax ls s)
  unfolding price_lines
  price_lines-Ends day n subtotal tax [] s = (omega int_laws, refl)
  price_lines-Ends day n subtotal tax (l ∷ ls) s =
      Ends-bind _ (λ a t. Unit) (current_tax_rate_percent (shape.tax_code_id l) day) _ s
        (Ends-trivial _)
        λ rate t _.
          Ends-bind _
            (λ (p : Priced L) u.
              (p.subtotal ≡ subtotal +ℤ line_total_of shape l +ℤ sum_by shape.total_of p.lines)
              × (length p.lines ≡ length ls))
            (price_lines shape day (suc n) (subtotal +ℤ line_total_of shape l)
              (tax +ℤ tax_of (line_total_of shape l) rate) ls)
            _ t (price_lines-Ends day (suc n) (subtotal +ℤ line_total_of shape l) _ ls t)
            λ p u h. (
              h.0
                  ∙ rw (shape.row_total n l (line_total_of shape l))
                      (move_in subtotal (line_total_of shape l) (sum_by shape.total_of p.lines)),
              ap suc h.1,
            )
