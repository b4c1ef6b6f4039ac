-- ===== src/Examples/Accounts.antt =====
-- The theorems of the accounts and the periods at concrete inputs.
use erp_ai_private.Prelude.{◌≡◌, refl, [], ◌∷◌, none, some}
use erp_ai_private.Db.{Account, asset, active, closed_period, year_closed, ok, err, Db}
use erp_ai_private.Accounts.{CreateAccountDto, create_account, seed_sme_template}
use erp_ai_private.Accounts.Codes.{HasUniqueCodes, create_account-HasUniqueCodes}
use erp_ai_private.Accounts.Seeding.{seed_sme_template_total}
use erp_ai_private.Periods.{close, unclosed}
use erp_ai_private.Periods.Closing.{close-periods}
use erp_ai_private.Examples.{january, company}

-- a bank account below cash
abbrev bank : CreateAccountDto
bank = record { code = 1112; type = asset; currency = none; parent = some 10 }

abbrev bank_account : Account
bank_account = record {
  id = 100;
  tenant = 1;
  parent = some 10;
  code = 1112;
  type = asset;
  status = active;
  currency = none;
}

create_account-HasUniqueCodes_example : HasUniqueCodes (create_account 1 bank company).1.accounts
create_account-HasUniqueCodes_example =
    create_account-HasUniqueCodes 1 bank company (refl, (refl, (refl, tt)))

create_bank : (create_account 1 bank company).0 ≡ ok bank_account
unfolding create_account
create_bank = refl

seed_sme_template_total_example : (seed_sme_template 1 company).0 ≡ ok tt
seed_sme_template_total_example = seed_sme_template_total 1 company

-- every period of the year is closed
abbrev december : Db
december = record company { periods = record january { status = closed_period } ∷ [] }

december_closed : (close 1 21 december).0 ≡ ok tt
unfolding close
december_closed = refl

close-periods_example :
    (unclosed 21 (close 1 21 december).1.periods ≡ 0)
    × (close 1 21 (close 1 21 december).1 ≡ (err year_closed, (close 1 21 december).1))
close-periods_example = close-periods 1 21 december december_closed
