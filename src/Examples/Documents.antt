-- ===== src/Examples/Documents.antt =====
-- The theorems of the invoices at concrete inputs.
use erp_ai_private.Prelude.{◌≡◌, ◌↔◌, refl, List, [], ◌∷◌, some, true}
use erp_ai_private.Prelude.Int.{pos, ◌+ℤ◌, ◌-ℤ◌, sum_by}
use erp_ai_private.Db.{Db, Entry, Invoice, ok, err, approved_invoice, invoice_not_draft}
use erp_ai_private.Accounts.{validate_account_for_posting}
use erp_ai_private.Periods.{find_active_period_by_date}
use erp_ai_private.Journal.{
  LineDto, text, number, check_line, check_lines, insert_entry, has_references, has_room,
  store_lines, execute_create, create,
}
use erp_ai_private.Journal.Balance.{debit_of, credit_of}
use erp_ai_private.Sequences.{get_previous_invoice_hash}
use erp_ai_private.Inventory.{upsert, process_outward_movement}
use erp_ai_private.Invoices.{
  control_account, stock_of_line, stock_lines, post_lines, execute_approve, approve_invoice,
  approvable, find_one, is_approvable, control_line, base_of, line,
}
use erp_ai_private.Invoices.Amounts.{approve-balance}
use erp_ai_private.Invoices.Posting.{
  approve_invoice_refused, approve_invoice_posts, approve_invoice_once,
}
use erp_ai_private.Examples.{whole, today, later, draft, company}

abbrev billed_db : Db
billed_db = (approve_invoice whole 1 today 60 company).1

approve_draft : approve_invoice whole 1 today 60 company ≡ (ok tt, billed_db)
unfolding approve_invoice execute_approve post_lines stock_lines stock_of_line
    process_outward_movement upsert control_account create check_lines check_line execute_create
    insert_entry has_references has_room store_lines validate_account_for_posting
    find_active_period_by_date get_previous_invoice_hash ◌+ℤ◌ ◌-ℤ◌
approve_draft = refl

approve_invoice_once_example :
    approve_invoice whole 1 later 60 billed_db ≡ (err invoice_not_draft, billed_db)
approve_invoice_once_example =
    approve_invoice_once whole 1 60 today later company billed_db approve_draft

approve_invoice_posts_example :
    (e : Entry) × (i j : Invoice) × (billed_db.entries ≡ e ∷ [])
    × (e.tenant ≡ 1)
    × (find_one 1 60 company ≡ some i)
    × (is_approvable i.status ≡ true)
    × (e.date ≡ i.issue_date)
    × (find_one 1 60 billed_db ≡ some j)
    × (j.status ≡ approved_invoice)
    × (j.journal_entry ≡ some e.id)
approve_invoice_posts_example =
    approve_invoice_posts whole 1 today 60 company billed_db approve_draft

-- invoice 62 is approved already
refuse_unpaid : approve_invoice whole 1 today 62 company ≡ (err invoice_not_draft, company)
unfolding approve_invoice
refuse_unpaid = refl

approve_invoice_refused_example : (approve_invoice whole 1 today 62 company).1 ≡ company
unfolding approve_invoice
approve_invoice_refused_example =
    approve_invoice_refused whole 1 today 62 company company {x = invoice_not_draft} refuse_unpaid

-- the revenue of the line, and the cost of its goods
abbrev gathered : List LineDto
gathered =
    line 12 (some 30) (text (pos 10)) (number (pos 0))
    ∷ line 10 (some 30) (number (pos 0)) (text (pos 10))
    ∷ line 11 (some 30) (text (pos 0)) (text (pos 200))
    ∷ []

abbrev gathered_db : Db
gathered_db = (post_lines whole 1 draft draft.lines company).1

gather : post_lines whole 1 draft draft.lines company ≡ (ok gathered, gathered_db)
unfolding post_lines stock_lines stock_of_line process_outward_movement upsert ◌+ℤ◌ ◌-ℤ◌
gather = refl

approve-balance_example :
    let lines = control_line draft 10 (base_of whole draft draft.total) ∷ gathered in
    (sum_by debit_of lines ≡ sum_by credit_of lines)
    ↔ (base_of whole draft draft.total ≡ sum_by (λ l. base_of whole draft l.total) draft.lines)
approve-balance_example = approve-balance whole 1 draft 10 company gathered_db gather

-- a bill without lines
abbrev empty_db : Db
empty_db = record company { invoices = record draft { lines = [] } ∷ [] }

approvable_empty : approvable 1 60 empty_db ≡ ok (record draft { lines = [] }, 10)
unfolding control_account
approvable_empty = refl
