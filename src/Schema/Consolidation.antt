-- ===== src/Schema/Consolidation.antt =====
-- Models ExchangeRate, IntercompanyTransaction, ConsolidationRun and ConsolidatedTrialBalanceLine.
use advanced_accountancy.Prelude.{String, Bool, true, false, Option}
use advanced_accountancy.Prelude.Int.{ℤ}
use advanced_accountancy.Schema.Units.{Uuid, Day, Cents}

pub record ExchangeRate : Type 0 where
  pub company_id : Uuid
  pub from_currency : String
  pub to_currency : String
  pub rate : ℤ  -- in units of 10^-8
  pub rate_date : Day

pub data MatchStatus : Type 0 where
  unmatched matched eliminated : MatchStatus

unfoldable pub match_eq : MatchStatus → MatchStatus → Bool
match_eq unmatched unmatched = true
match_eq matched matched = true
match_eq eliminated eliminated = true
match_eq _ _ = false

pub record IntercompanyTransaction : Type 0 where
  pub id : Uuid
  pub business_group_id : Uuid
  pub company_a_id : Uuid
  pub company_b_id : Uuid
  pub company_a_entry_id : Uuid
  pub company_b_entry_id : Option Uuid
  pub amount : Cents
  pub currency_code : String
  pub status : MatchStatus

pub record ConsolidationRun : Type 0 where
  pub id : Uuid
  pub business_group_id : Uuid
  pub period_label : String
  pub presentation_currency : String
  pub is_final : Bool  -- status: final, or else draft
  pub finalized_at : Option Day

pub record ConsolidatedLine : Type 0 where
  pub consolidation_run_id : Uuid
  pub company_id : Uuid
  pub account_code : String
  pub account_name : String
  pub mis_category : Option String
  pub original_amount : Cents
  pub translated_amount : Cents
  pub elimination_amount : Cents
