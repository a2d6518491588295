-- ===== src/Accounting/Provisioning/Starter.antt =====
-- backend/src/accounting/company-provisioning.data.ts: the chart of accounts and the posting rules
-- that every company starts with.
use advanced_accountancy.Prelude.{ℕ, String, Option, none, some, List, [], ◌∷◌}
use advanced_accountancy.Schema.{
  AccountType, asset, liability, equity, income, expense, Side, debit, credit, PostingRuleLine,
}

pub record StarterAccount : Type 0 where
  pub account_code : String
  pub name : String
  pub account_type : AccountType
  pub control_type : Option String
  pub mis_category : Option String

abbrev starter_account :
    String → String → AccountType → Option String → Option String → StarterAccount
starter_account code name account_type control_type mis_category = record {
  account_code = code;
  name = name;
  account_type = account_type;
  control_type = control_type;
  mis_category = mis_category;
}

abbrev pub starter_chart_of_accounts : List StarterAccount
starter_chart_of_accounts =
    starter_account "1100" "Accounts Receivable" asset (some "AR") (some "AR")
    ∷ starter_account "1200" "Inventory" asset (some "INVENTORY") (some "INVENTORY")
    ∷ starter_account "1300" "Input Tax Receivable" asset (some "TAX_INPUT") none
    ∷ starter_account "1500" "Accumulated Depreciation" asset none (some "ASSET")
    ∷ starter_account "1900" "Bank — Default" asset (some "BANK") (some "CASH")
    ∷ starter_account "2100" "Accounts Payable" liability (some "AP") (some "AP")
    ∷ starter_account "2200" "Output Tax Payable" liability (some "TAX_OUTPUT") none
    ∷ starter_account "2300" "Salary Payable" liability (some "SALARY_PAYABLE") none
    ∷ starter_account "2400" "Statutory Payable" liability (some "STATUTORY_PAYABLE") none
    ∷ starter_account "3000" "Owner's Equity / Retained Earnings" equity none (some "EQUITY")
    ∷ starter_account "4000" "Sales Revenue" income (some "SALES_REVENUE") (some "REVENUE")
    ∷ starter_account "5000" "Cost of Goods Sold" expense (some "COGS") (some "COGS")
    ∷ starter_account "5100" "General Purchases / Expense" expense (some "PURCHASE_EXPENSE")
        (some "OPEX")
    ∷ starter_account "6000" "Salary Expense" expense (some "SALARY_EXPENSE") (some "OPEX")
    ∷ starter_account "6100" "Depreciation Expense" expense none (some "OPEX")
    ∷ []

pub record StarterPostingRule : Type 0 where
  pub event_type : String
  pub lines : List PostingRuleLine

abbrev rule_line : ℕ → Side → String → String → PostingRuleLine
rule_line line_no side account_resolver amount_source = record {
  line_no = line_no;
  side = side;
  account_resolver = account_resolver;
  amount_source = amount_source;
}

abbrev pub starter_posting_rules : List StarterPostingRule
starter_posting_rules =
    record {
      event_type = "SALES_INVOICE_POSTED";
      lines =
          rule_line 1 debit "CONTROL:AR" "total"
          ∷ rule_line 2 credit "CONTROL:SALES_REVENUE" "subtotal"
          ∷ rule_line 3 credit "CONTROL:TAX_OUTPUT" "taxAmount"
          ∷ [];
    }
    ∷ record {
      event_type = "PURCHASE_INVOICE_POSTED";
      lines =
          rule_line 1 debit "CONTROL:PURCHASE_EXPENSE" "subtotal"
          ∷ rule_line 2 debit "CONTROL:TAX_INPUT" "taxAmount"
          ∷ rule_line 3 credit "CONTROL:AP" "total"
          ∷ [];
    }
    ∷ record {
      event_type = "CUSTOMER_RECEIPT_POSTED";
      lines =
          rule_line 1 debit "OVERRIDE:bankAccount" "amount"
          ∷ rule_line 2 credit "CONTROL:AR" "amount"
          ∷ [];
    }
    ∷ record {
      event_type = "SUPPLIER_PAYMENT_POSTED";
      lines =
          rule_line 1 debit "CONTROL:AP" "amount"
          ∷ rule_line 2 credit "OVERRIDE:bankAccount" "amount"
          ∷ [];
    }
    ∷ record {
      event_type = "CREDIT_NOTE_POSTED";
      lines =
          rule_line 1 debit "CONTROL:SALES_REVENUE" "amount"
          ∷ rule_line 2 credit "CONTROL:AR" "amount"
          ∷ [];
    }
    ∷ record {
      event_type = "DEBIT_NOTE_POSTED";
      lines =
          rule_line 1 debit "CONTROL:AP" "amount"
          ∷ rule_line 2 credit "CONTROL:PURCHASE_EXPENSE" "amount"
          ∷ [];
    }
    ∷ record {
      event_type = "DELIVERY_POSTED";
      lines =
          rule_line 1 debit "CONTROL:COGS" "cost"
          ∷ rule_line 2 credit "CONTROL:INVENTORY" "cost"
          ∷ [];
    }
    ∷ record {
      event_type = "PAYROLL_RUN_POSTED";
      lines =
          rule_line 1 debit "CONTROL:SALARY_EXPENSE" "totalGross"
          ∷ rule_line 2 credit "CONTROL:SALARY_PAYABLE" "totalNet"
          ∷ rule_line 3 credit "CONTROL:STATUTORY_PAYABLE" "totalDeductions"
          ∷ [];
    }
    ∷ record {
      event_type = "ASSET_DEPRECIATION_POSTED";
      lines =
          rule_line 1 debit "OVERRIDE:depreciationExpenseAccount" "amount"
          ∷ rule_line 2 credit "OVERRIDE:accumulatedDepreciationAccount" "amount"
          ∷ [];
    }
    ∷ record {
      event_type = "INVENTORY_ADJUSTMENT_POSTED";
      lines =
          rule_line 1 debit "CONTROL:INVENTORY" "increaseAmount"
          ∷ rule_line 2 credit "CONTROL:COGS" "increaseAmount"
          ∷ rule_line 3 debit "CONTROL:COGS" "decreaseAmount"
          ∷ rule_line 4 credit "CONTROL:INVENTORY" "decreaseAmount"
          ∷ [];
    }
    ∷ []
