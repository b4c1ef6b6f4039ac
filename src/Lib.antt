-- ===== src/Lib.antt =====
-- A model of the accounting core of the ERP's API (apps/api), with its theorems.
--
-- The services of apps/api/src/modules work on one PostgreSQL database through Prisma. Each
-- service call is an `Action`: a function from the database to a result or an error and the
-- database that it leaves. What a call wrote before it throws stays written, unless it wrote it
-- inside `transaction` (Prisma's `$transaction`). Calls run one after the other.
--
-- Prelude, Prelude/*: numbers, lists and tests that every file uses; signed integers.
-- Decimal: decimal amounts as whole numbers of a small unit. Sums and comparisons are exact;
--   products, quotients and the rounding of a column are the parameter `Decimals`, and a theorem
--   that relies on rounding names what it needs (`Rounds`, `Fits`, `IsCents`, `IsRounding`,
--   `IsExact`).
-- Db, Db/*: the enums and tables of apps/api/prisma/schema.prisma, and `Action`.
-- Accounts: accounting/chart-of-accounts (createAccount, validateAccountForPosting,
--   seedSmeTemplate).
-- Periods: accounting/accounting-periods and accounting/fiscal-years (findActivePeriodByDate,
--   updateStatus, close). Periods/Calendar: the UTC calendar behind JavaScript's `Date`.
--   Periods/Years: create and initializeFiscalYear. Periods/Tiling: the periods as a division of
--   the year.
-- Assets, Assets/*: accounting/fixed-assets (create with generateSchedule, runMonthlyDepreciation).
-- Currencies: accounting/currencies (create, setExchangeRate).
-- Consolidation: accounting/consolidation (setPeriodExchangeRate, getConsolidatedTrialBalance).
-- Journal: accounting/journal-entries (create, createReversal). `create` asks Accounts and Periods
--   whether the entry may be posted, numbers it and stores it.
-- Ledger: accounting/general-ledger (getTrialBalance), which reads the entries. Ledger/Rounding: how
--   far entries are out of balance when their columns round.
-- Inventory: accounting/inventory (processInwardMovement, processOutwardMovement,
--   transferInventory, upsertBalance).
-- Sequences: business/sequences (getNextSequence, getPreviousInvoiceHash).
-- Invoices: business/invoices (create, approve). An approval moves the stock of the lines, posts
--   one entry by `create` of Journal and links the invoice to it.
-- Payments: business/payments (create, approve, the handlers of the approval events). An approval
--   allocates the payment to invoices and posts one entry.
-- Payroll: business/payroll (createPayrollRun, approvePayrollRun, the handlers).
-- Employees: business/employee-profiles (processPayroll).
-- Orders: business/procurement (createPO, receiveGoods, approvePurchaseOrder, convertToBill, the
--   handlers).
-- Approvals: approvals (approveRequest, rejectRequest), which emit the events that Payments,
--   Payroll and Orders handle; an exception in a handler does not reach the request.
-- Reconciliations: accounting/bank-reconciliation (uploadStatement, autoMatch, manualMatch,
--   manualUnmatch, completeReconciliation).
-- Reports: reports (getPnl, getBalanceSheet, getCashFlow), over the trial balance.
-- Vat: compliance/vat (calculateVatReturn); the number that JavaScript makes of a decimal is a
--   parameter.
-- Zakat: compliance/zakat (estimateZakat).
-- Zatca: ksa-compliance/zatca (toTlv, the buffer of the QR code), and a reader of the code.
-- Access: the guards of apps/api/src/common/guards, tenants (createTenant) and permissions.
--   Access/Users: auth (register, login, acceptInvite, refreshTokens, validateStrength) and users
--   (inviteUser). Access/Tokens: the refresh tokens. Access/Redis: database/redis.service.ts, its
--   keys in Redis or, as the fallback, in memory; which calls Redis answers is a function.
--   Db/Keys: the permission catalogue of packages/shared/src/constants.
-- Services, Services/*: the calls that write accounting and business tables as one step relation,
--   and its sequences of calls. The calls of Access and Currencies write other tables.
-- Examples, Examples/*: a small company at which every theorem is applied.
--
-- Ids, account codes and names are numbers, since they are only compared. The clock is an argument.
-- Texts for people are left out. Every loop of the source runs over a list, so every function here
-- is by recursion on a list and no fuel is needed.
--
-- Local time, signing, hashing and random tokens are parameters.
--
-- Not modelled: dashboards, the XML and the submission of ZATCA, WPS, leave and
-- end-of-service modules, contacts, CRM, audit logs, the web application, and reads for display.
-- Two calls that run at the same time are not modelled: a call sees the database that the one
-- before it left.
pub mod Prelude
pub mod Decimal
pub mod Currencies
pub mod Db
pub mod Access
pub mod Accounts
pub mod Assets
pub mod Periods
pub mod Journal
pub mod Ledger
pub mod Inventory
pub mod Sequences
pub mod Invoices
pub mod Payments
pub mod Orders
pub mod Payroll
pub mod Approvals
pub mod Reconciliations
pub mod Employees
pub mod Services
pub mod Vat
pub mod Zakat
pub mod Consolidation
pub mod Zatca
pub mod Reports
pub mod Examples
