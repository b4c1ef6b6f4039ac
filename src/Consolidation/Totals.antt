-- ===== src/Consolidation/Totals.antt =====
-- The totals of the consolidated trial balance.
use erp_ai_private.Prelude.{
  ℕ, ◌≤◌, ◌==◌, ◌≡◌, refl, sym, ap, ◌∙◌, List, [], ◌∷◌, ◌++◌, Option, none, some, inl, inr, Bool,
  Bool-cases, ◌&&◌, arith, All, find, select,
}
use mathlib.Core.Path.{subst}
use mathlib.Core.Option.{some-injective}
use erp_ai_private.Prelude.Product.{◌*ℤ◌, *ℤ-add, *ℤ-sub, *ℤ-zero, *ℤ-cancel}
use erp_ai_private.Prelude.Int.{ℤ, pos, ◌+ℤ◌, ◌-ℤ◌, sum_by, sum_by-sub, int_laws, zero_+ℤ, +ℤ_zero}
use erp_ai_private.Decimal.{Decimals}
use erp_ai_private.Db.{
  Account, Line, Entry, Tenant, TenantChild, Date, Db, Result, Error, ok, err, or_throw, and_then,
  tenant_not_found, foreign_key,
}
use erp_ai_private.Journal.Balance.{IsBalanced}
use erp_ai_private.Ledger.{posted_lines, lines_of, in_range, is_posted}
use erp_ai_private.Ledger.Balanced.{IsOwned, HasAccount, net, lines_of-nets}
use erp_ai_private.Consolidation.{
  CodeRow, add_to, add_line, add_lines, get_tenant_trial_balance, translate, add_translated,
  child_rate, add_children, consolidate,
}

abbrev pub row_debit : CodeRow → ℤ
row_debit r = r.debit

abbrev pub row_credit : CodeRow → ℤ
row_credit r = r.credit

abbrev row_net : CodeRow → ℤ
row_net r = r.debit -ℤ r.credit

sum-add_to :
    (r : CodeRow) (rows : List CodeRow)
    → sum_by row_net (add_to r rows) ≡ row_net r +ℤ sum_by row_net rows
unfolding add_to
sum-add_to r [] = refl
sum-add_to r (x ∷ xs) = elim (Bool-cases (x.code == r.code)) [
  | inl same ↦ grind int_laws
  | inr other ↦ grind (int_laws, sum-add_to r xs)
]

sum-add_line :
    (db : Db) (l : Line) (rows : List CodeRow)
    → HasAccount db l
    → sum_by row_net (add_line db l rows) ≡ net l +ℤ sum_by row_net rows
sum-add_line db l rows (a, found) =
    let r : Account → CodeRow = λ x. record { code = x.code; debit = l.debit; credit = l.credit } in
    ap (λ o. sum_by row_net (elim o [ none ↦ rows | some x ↦ add_to (r x) rows ])) found
    ∙ sum-add_to (r a) rows

sum-add_lines :
    (db : Db) (ls : List Line) (rows : List CodeRow)
    → All (HasAccount db) ls
    → sum_by row_net (add_lines db ls rows) ≡ sum_by net ls +ℤ sum_by row_net rows
unfolding add_lines
sum-add_lines db [] rows h = grind int_laws
sum-add_lines db (l ∷ ls) rows h =
    let inner = sum-add_lines db ls (add_line db l rows) h.1 in
    let first = sum-add_line db l rows h.0 in grind int_laws

-- The product of the amount and the rate is exact in the unit of the amounts, as it is in decimal.js
-- while it has at most 20 significant digits.
abbrev pub IsExact : Decimals → ℤ → ℤ → Type 0
IsExact D rate a = D.mul a rate *ℤ pos D.scale ≡ a *ℤ rate

abbrev pub IsExactRow : Decimals → ℤ → CodeRow → Type 0
IsExactRow D rate r = IsExact D rate r.debit × IsExact D rate r.credit

-- The amounts of a child are translated exactly, if it has a rate.
abbrev pub IsExactChild : Decimals → Tenant → Date → Date → Db → TenantChild → Type 0
IsExactChild D parent start end db h = elim (find (λ t. t.id == h.child) db.tenants) [
  | none ↦ Unit
  | some child ↦ elim (child_rate D parent child start end db) [
    | err e ↦ Unit
    | ok rate ↦ All (IsExactRow D rate) (get_tenant_trial_balance child.id start end db)
  ]
]

translate-net :
    (D : Decimals) (rate : ℤ) (r : CodeRow)
    → IsExactRow D rate r
    → row_net (translate D rate r) *ℤ pos D.scale ≡ row_net r *ℤ rate
translate-net D rate r (d, c) =
    *ℤ-sub (D.mul r.debit rate) (D.mul r.credit rate) (pos D.scale)
    ∙ rw (d, c) (sym (*ℤ-sub r.debit r.credit rate))

sum-add_translated :
    (D : Decimals) (rate : ℤ) (ts rows : List CodeRow)
    → All (IsExactRow D rate) ts
    → sum_by row_net (add_translated D rate ts rows) *ℤ pos D.scale
      ≡ sum_by row_net ts *ℤ rate +ℤ sum_by row_net rows *ℤ pos D.scale
unfolding add_translated
sum-add_translated D rate [] rows h = rw (*ℤ-zero rate) (sym (zero_+ℤ _))
sum-add_translated D rate (r ∷ rs) rows h =
    let t = translate D rate r in
    let rest = sum-add_translated D rate rs (add_to t rows) h.1 in
    let first = translate-net D rate r h.0 in
    let put = ap (λ x. x *ℤ pos D.scale) (sum-add_to t rows) in
    let apart = *ℤ-add (row_net t) (sum_by row_net rows) (pos D.scale) in
    let together = *ℤ-add (row_net r) (sum_by row_net rs) rate in grind int_laws

All-select : (P : Line → Type 0) (p : Line → Bool) (ls : List Line) → All P ls → All P (select p ls)
All-select P p [] h = tt
All-select P p (l ∷ ls) h = elim (Bool-cases (p l)) [
  | inl taken ↦ rw taken (h.0, All-select P p ls h.1)
  | inr left ↦ rw left (All-select P p ls h.1)
]

All-append : (P : Line → Type 0) (ls ks : List Line) → All P ls → All P ks → All P (ls ++ ks)
All-append P [] ks h k = k
All-append P (l ∷ ls) ks h k = (h.0, All-append P ls ks h.1 k)

All-lines_of :
    (P : Line → Type 0) (p : Entry → Bool) (es : List Entry)
    → All (λ e. All P e.lines) es
    → All P (lines_of p es)
All-lines_of P p [] h = tt
All-lines_of P p (e ∷ es) h = elim (Bool-cases (p e)) [
  | inl taken ↦ rw taken (All-append P e.lines (lines_of p es) h.0 (All-lines_of P p es h.1))
  | inr left ↦ rw left (All-lines_of P p es h.1)
]

own_nets :
    (tenant : ℕ) (start end : Date) (db : Db)
    → All IsBalanced db.entries
    → All IsOwned db.entries
    → All (λ e. All (HasAccount db) e.lines) db.entries
    → sum_by row_net (get_tenant_trial_balance tenant start end db) ≡ pos 0
own_nets tenant start end db b o h =
    let ls = posted_lines tenant (some start) (some end) db in
    let p : Entry → Bool = λ e. is_posted e.status && in_range (some start) (some end) e.date in
    let level : sum_by net ls ≡ pos 0 =
      unfold posted_lines in lines_of-nets p tenant db.entries b o in
    let known : All (HasAccount db) ls =
      unfold posted_lines in
      All-select (HasAccount db) (λ l. l.tenant == tenant) (lines_of p db.entries)
        (All-lines_of (HasAccount db) p db.entries h) in
    sum-add_lines db ls [] known ∙ rw level (grind int_laws)

or_throw-eq-ok : {A : Type 0} (x : Option A) (t : Error) {a : A} → or_throw x t ≡ ok a → x ≡ some a
or_throw-eq-ok none t h = cc
or_throw-eq-ok (some a) t h = cc

exact_child :
    (D : Decimals) (parent child : Tenant) (start end : Date) (db : Db) (c : TenantChild) (rate : ℤ)
    → find (λ t. t.id == c.child) db.tenants ≡ some child
    → child_rate D parent child start end db ≡ ok rate
    → IsExactChild D parent start end db c
    → All (IsExactRow D rate) (get_tenant_trial_balance child.id start end db)
exact_child D parent child start end db c rate found has_rate k =
    subst
      (λ (r : Result ℤ). elim r [
        | err e ↦ Unit {0}
        | ok x ↦ All (IsExactRow D x) (get_tenant_trial_balance child.id start end db)
      ])
      has_rate
      (subst
        (λ (o : Option Tenant). elim o [
          | none ↦ Unit {0}
          | some t ↦ elim (child_rate D parent t start end db) [
            | err e ↦ Unit {0}
            | ok x ↦ All (IsExactRow D x) (get_tenant_trial_balance t.id start end db)
          ]
        ])
        found k)

and_then-eq-ok :
    {A B : Type 0} (r : Result A) (f : A → Result B) {b : B}
    → and_then r f ≡ ok b
    → (a : A) × (r ≡ ok a) × (f a ≡ ok b)
and_then-eq-ok (ok a) f h = (a, refl, h)
and_then-eq-ok (err e) f h = cc

module _ (D : Decimals) (scaled : 1 ≤ D.scale) (start end : Date) (db : Db)
    (b : All IsBalanced db.entries) (o : All IsOwned db.entries)
    (h : All (λ e. All (HasAccount db) e.lines) db.entries) where
  add_translated-nets :
      (rate : ℤ) (ts rows : List CodeRow)
      → All (IsExactRow D rate) ts
      → sum_by row_net ts ≡ pos 0
      → sum_by row_net rows ≡ pos 0
      → sum_by row_net (add_translated D rate ts rows) ≡ pos 0
  add_translated-nets rate ts rows exact even level =
      *ℤ-cancel (sum_by row_net (add_translated D rate ts rows)) D.scale scaled (
        sum-add_translated D rate ts rows exact
        ∙ rw (even, level, *ℤ-zero rate, *ℤ-zero (pos D.scale)) (+ℤ_zero (pos 0)))

  add_children-nets :
      (parent : Tenant) (hs : List TenantChild) (rows : List CodeRow) {out : List CodeRow}
      → All (IsExactChild D parent start end db) hs
      → sum_by row_net rows ≡ pos 0
      → add_children D parent start end db hs rows ≡ ok out
      → sum_by row_net out ≡ pos 0
  unfolding add_children
  add_children-nets parent [] rows exact level e = ground (arith, level)
  add_children-nets parent (c ∷ hs) rows exact level e =
      let (child, found, e1) =
        and_then-eq-ok (or_throw (find (λ t. t.id == c.child) db.tenants) foreign_key) _ e in
      let (rate, has_rate, e2) = and_then-eq-ok (child_rate D parent child start end db) _ e1 in
      let ts = get_tenant_trial_balance child.id start end db in
      let here : All (IsExactRow D rate) ts =
        exact_child D parent child start end db c rate
          (or_throw-eq-ok (find (λ t. t.id == c.child) db.tenants) foreign_key found) has_rate
          exact.0 in
      let next : sum_by row_net (add_translated D rate ts rows) ≡ pos 0 =
        add_translated-nets rate ts rows here (own_nets child.id start end db b o h) level in
      add_children-nets parent hs (add_translated D rate ts rows) exact.1 next e2

  -- The consolidated trial balance balances before its amounts are rounded to two places: a parent
  -- and its children have equal debits and credits, at any rates at which the translated amounts of
  -- each child are exact, if every entry is balanced and keeps to its tenant, and every line has an
  -- account.
  pub consolidate-balance :
      (tenant : ℕ) {parent : Tenant} {out : List CodeRow}
      → find (λ t. t.id == tenant) db.tenants ≡ some parent
      → All
          (IsExactChild D parent start end db)
          (select (λ h. h.parent == parent.id) db.tenant_children)
      → consolidate D tenant start end db ≡ ok out
      → sum_by row_debit out ≡ sum_by row_credit out
  unfolding consolidate
  consolidate-balance tenant {parent = parent} {out = out} found exact e =
      let (p, is_parent, e1) =
        and_then-eq-ok (or_throw (find (λ t. t.id == tenant) db.tenants) tenant_not_found) _ e in
      let same : parent ≡ p = some-injective _ _ (
        sym found
        ∙ or_throw-eq-ok (find (λ t. t.id == tenant) db.tenants) tenant_not_found is_parent) in
      let children : All (IsExactChild D p start end db)
          (select (λ h. h.parent == p.id) db.tenant_children) =
        rw (← same) exact in
      let level =
        add_children-nets p (select (λ h. h.parent == p.id) db.tenant_children)
          (get_tenant_trial_balance p.id start end db) children (own_nets p.id start end db b o h)
          e1 in
      let split = sum_by-sub row_debit row_credit out in grind int_laws
