-- ===== src/Examples.antt =====
-- A small company: the data at which the theorems are tried. Amounts are whole numbers.
mod Accounting
mod Accounts
mod Services
mod Documents
mod Stock
mod Payments
mod Approvals
mod Years
mod Assets
mod Reports
mod Access
mod Zatca
mod Consolidation
mod Rounding
mod Currencies
use erp_ai_private.Prelude.{ℕ, ◌+◌, ◌*◌, ◌/◌, ◌≡◌, refl, List, [], ◌∷◌, none, some, true, false}
use erp_ai_private.Prelude.Int.{ℤ, pos, negsuc, pos_part, neg_part, ◌≤ℤ◌, ◌-ℤ◌}
use erp_ai_private.Decimal.{Decimals, Rounds}
use erp_ai_private.Db.{
  asset, revenue, expense, active, open_period, Date, sales_invoice, draft_invoice,
  approved_invoice, incoming, draft_payment, pending, order_entity, sent, draft_reconciliation,
  draft_run, month_name, fy, active, inv, rcpt, document, Account, Period, FiscalYear, Contact,
  Item, Balance, Invoice, InvoiceLine, Allocation, Payment, Approval, Profile, Order, OrderLine,
  PayrollRun, Reconciliation, Db,
}

-- products and quotients of whole numbers
abbrev pub whole : Decimals
whole = record {
  scale = 1;
  mul = λ a b.
      pos (pos_part a * pos_part b + neg_part a * neg_part b)
      -ℤ pos (pos_part a * neg_part b + neg_part a * pos_part b);
  div = λ a b. pos (pos_part a / pos_part b);
  column = λ n a. a;
  to_decimal_places = λ n a. a;
}

pub whole-Rounds : Rounds whole
whole-Rounds = record {
  column_zero = λ n. refl;
  column_nonneg = λ n a h. h;
  column_add = λ n a b h k. refl;
  column_sub = λ n a b h k. refl;
}

abbrev pub today : Date
today = record { year = 2026; ms = 86400000 }

abbrev pub later : Date
later = record { year = 2026; ms = 172800000 }

abbrev pub cash : Account
cash = record {
  id = 10;
  tenant = 1;
  parent = none;
  code = 1111;
  type = asset;
  status = active;
  currency = none;
}

abbrev pub sales : Account
sales = record {
  id = 11;
  tenant = 1;
  parent = none;
  code = 4110;
  type = revenue;
  status = active;
  currency = none;
}

abbrev pub wages_account : Account
wages_account = record {
  id = 12;
  tenant = 1;
  parent = none;
  code = 5110;
  type = expense;
  status = active;
  currency = none;
}

abbrev pub january : Period
january = record {
  id = 20;
  tenant = 1;
  fiscal_year = 21;
  name = month_name 2026 0;
  start_date = record { year = 2026; ms = 0 };
  end_date = record { year = 2026; ms = 2678399999 };
  status = open_period;
}

abbrev pub bolt : Item
bolt = record {
  id = 40;
  tenant = 1;
  inventory_account = some 10;
  cogs_account = some 12;
  weighted_average_cost = pos 5;
}

abbrev pub draft : Invoice
draft = record {
  id = 60;
  tenant = 1;
  number = document (record { prefix = inv; year = 2026; seq = 1 });
  contact = 30;
  type = sales_invoice;
  status = draft_invoice;
  issue_date = today;
  due_date = none;
  currency = none;
  exchange_rate = none;
  sub_total = pos 200;
  tax_total = pos 0;
  total = pos 200;
  amount_paid = pos 0;
  journal_entry = none;
  zatca_uuid = none;
  zatca_pih = none;
  lines =
      record {
        quantity = pos 2;
        unit_price = pos 100;
        tax_rate = pos 0;
        tax_amount = pos 0;
        total = pos 200;
        account = 11;
        item = some 40;
        warehouse = some 50;
      }
      ∷ [];
}

abbrev pub unpaid : Invoice
unpaid = record draft { id = 62; status = approved_invoice }

abbrev pub receipt : Payment
receipt = record {
  id = 61;
  tenant = 1;
  number = record { prefix = rcpt; year = 2026; seq = 0 };
  contact = 30;
  type = incoming;
  status = draft_payment;
  payment_date = today;
  amount = pos 200;
  account = 10;
  currency = none;
  exchange_rate = none;
  wht_amount = pos 0;
  wht_account = none;
  journal_entry = none;
  allocations = record { invoice = 62; amount = pos 200 } ∷ [];
}

abbrev pub purchase_order : Order
purchase_order = record {
  id = 80;
  tenant = 1;
  number = record { year = 2026; seq = 1 };
  contact = 30;
  issue_date = today;
  delivery_date = none;
  total_amount = pos 50;
  status = sent;
  lines = record { quantity = pos 10; unit_price = pos 5; total = pos 50; item = some 40 } ∷ [];
}

abbrev pub request : Approval
request = record {
  id = 70;
  tenant = 1;
  entity_type = order_entity;
  entity_id = 80;
  requested_by = 2;
  approver = none;
  status = pending;
}

abbrev pub clerk : Profile
clerk = record {
  id = 90;
  tenant = 1;
  basic_salary = pos 3000;
  housing_allowance = pos 500;
  transport_allowance = pos 100;
  contract_salary = pos 3600;
}

abbrev pub statement : Reconciliation
statement = record {
  id = 95;
  tenant = 1;
  account = 10;
  status = draft_reconciliation;
  opening_balance = pos 0;
  closing_balance = pos 0;
  transactions = [];
  reconciled_by = none;
}

abbrev pub company : Db
company = record {
  next_id = 100;
  accounts = cash ∷ sales ∷ wages_account ∷ [];
  periods = january ∷ [];
  fiscal_years =
      record {
        id = 21;
        tenant = 1;
        name = fy 2026;
        start_date = record { year = 2026; ms = 0 };
        end_date = record { year = 2026; ms = 31535999000 };
        status = open_period;
      }
      ∷ [];
  entries = [];
  sequences = [];
  contacts =
      record { id = 30; tenant = 1; receivable_account = some 10; payable_account = some 10 } ∷ [];
  items = bolt ∷ [];
  balances = record { item = 40; warehouse = 50; quantity = pos 8 } ∷ [];
  movements = [];
  lots = [];
  invoices = draft ∷ unpaid ∷ [];
  payments = receipt ∷ [];
  orders = purchase_order ∷ [];
  approvals = request ∷ [];
  profiles = clerk ∷ [];
  payroll_runs = [];
  reconciliations = statement ∷ [];
  assets = [];
  schedules = [];
  users = [];
  members = [];
  roles = [];
  permissions = [];
  role_permissions = [];
  redis = record { keys = []; memory = []; fallback = false; answers = λ n. true; calls = 0 };
  currencies = [];
  exchange_rates = [];
  zakat_settings = [];
  tenants = [];
  tenant_children = [];
  period_rates = [];
}
