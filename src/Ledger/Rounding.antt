-- ===== src/Ledger/Rounding.antt =====
-- How far entries are out of balance when their columns round amounts to two decimal places.
use erp_ai_private.Prelude.{
  ℕ, ◌+◌, ◌==◌, ◌≡◌, refl, ap, ◌⊎◌, ◌&&◌, inl, inr, List, [], ◌∷◌, ◌++◌, Option, Bool, arith, All,
  select, select-append, Bool-cases, if◌then◌else◌,
}
use erp_ai_private.Prelude.Int.{
  ℤ, pos, ◌+ℤ◌, ◌-ℤ◌, ◌≤ℤ◌, sum_by, sum_by-append, sum_by-sub, int_laws,
}
use erp_ai_private.Decimal.{Decimals}
use erp_ai_private.Db.{Date, Line, Entry, Db}
use erp_ai_private.Journal.{LineDto, store_lines, reverse_lines}
use erp_ai_private.Journal.Balance.{IsPostable, debit_of, credit_of, line_debit, line_credit}
use erp_ai_private.Journal.Reversal.{StoredInCents, sum-reverse_lines}
use erp_ai_private.Ledger.{lines_of, posted_lines, is_posted, in_range}
use erp_ai_private.Ledger.Balanced.{IsOwned, net, select_owned}

-- A column of two places rounds: it moves an amount by at most `half`, keeps zero, and keeps what it
-- has rounded. PostgreSQL documents that NUMERIC rounds to the nearest value of its scale.
pub record IsRounding (D : Decimals) (half : ℕ) : Type 0 where
  pub below : (a : ℤ) → D.column 2 a ≤ℤ a +ℤ pos half
  pub above : (a : ℤ) → a ≤ℤ D.column 2 a +ℤ pos half
  pub zero_kept : D.column 2 (pos 0) ≡ pos 0
  pub again : (a : ℤ) → D.column 2 (D.column 2 a) ≡ D.column 2 a

-- `half` for each line
abbrev pub allowed : ℕ → List Line → ℕ
allowed half [] = 0
allowed half (l ∷ ls) = half + allowed half ls

-- The amount is at most the bound, with either sign.
abbrev pub IsWithin : ℕ → ℤ → Type 0
IsWithin bound a = (a ≤ℤ pos bound) × (pos 0 ≤ℤ a +ℤ pos bound)

-- The debits and the credits differ by at most `half` for each line.
abbrev pub IsEven : ℕ → List Line → Type 0
IsEven half ls = IsWithin (allowed half ls) (sum_by net ls)

allowed-append :
    (half : ℕ) (ls ks : List Line) → allowed half (ls ++ ks) ≡ allowed half ls + allowed half ks
allowed-append half [] ks = omega arith
allowed-append half (l ∷ ls) ks = ground (arith, allowed-append half ls ks)

IsWithin-add : (m n : ℕ) (a b : ℤ) → IsWithin m a → IsWithin n b → IsWithin (m + n) (a +ℤ b)
IsWithin-add m n a b h k = (grind int_laws, grind int_laws)

IsEven-append :
    (half : ℕ) (ls ks : List Line) → IsEven half ls → IsEven half ks → IsEven half (ls ++ ks)
IsEven-append half ls ks h k =
    rw (allowed-append, sum_by-append)
      (IsWithin-add (allowed half ls) (allowed half ks) (sum_by net ls) (sum_by net ks) h k)

abbrev net_of_request : LineDto → ℤ
net_of_request l = debit_of l -ℤ credit_of l

line_moved :
    (D : Decimals) (half : ℕ) (d c : ℤ)
    → IsRounding D half
    → (d ≡ pos 0) ⊎ (c ≡ pos 0)
    → IsWithin half (D.column 2 d -ℤ D.column 2 c -ℤ (d -ℤ c))
line_moved D half d c r (inl z) =
    let up = r.below c in
    let down = r.above c in rw (z, r.zero_kept) (grind int_laws, grind int_laws)
line_moved D half d c r (inr z) =
    let up = r.below d in
    let down = r.above d in rw (z, r.zero_kept) (grind int_laws, grind int_laws)

-- a stored request is within the allowance of what was asked
store_lines-IsWithin :
    (D : Decimals) (half : ℕ) (db : Db) (tenant : ℕ) (now : Date) (id : ℕ) (ls : List LineDto)
    → IsRounding D half
    → All (IsPostable db tenant) ls
    → IsWithin
        (allowed half (store_lines D tenant now id ls))
        (sum_by net (store_lines D tenant now id ls) -ℤ sum_by net_of_request ls)
unfolding store_lines
store_lines-IsWithin D half db tenant now id [] r h = (grind int_laws, grind int_laws)
store_lines-IsWithin D half db tenant now id (l ∷ ls) r h =
    let rest = store_lines-IsWithin D half db tenant now (id + 1) ls r h.1 in
    let first = line_moved D half (debit_of l) (credit_of l) r h.0.one_side in
    (grind int_laws, grind int_laws)

pub store_lines-IsEven :
    (D : Decimals) (half : ℕ) (db : Db) (tenant : ℕ) (now : Date) (id : ℕ) (ls : List LineDto)
    → IsRounding D half
    → All (IsPostable db tenant) ls
    → sum_by debit_of ls ≡ sum_by credit_of ls
    → IsEven half (store_lines D tenant now id ls)
store_lines-IsEven D half db tenant now id ls r h balanced =
    let near = store_lines-IsWithin D half db tenant now id ls r h in
    let asked = sum_by-sub debit_of credit_of ls in (grind int_laws, grind int_laws)

pub store_lines-StoredInCents :
    (D : Decimals) (half : ℕ) (tenant : ℕ) (now : Date) (id : ℕ) (ls : List LineDto)
    → IsRounding D half
    → All (StoredInCents D) (store_lines D tenant now id ls)
unfolding store_lines
store_lines-StoredInCents D half tenant now id [] r = tt
store_lines-StoredInCents D half tenant now id (l ∷ ls) r = (
  (r.again (debit_of l), r.again (credit_of l)),
  store_lines-StoredInCents D half tenant now (id + 1) ls r,
)

-- Two lines that carry one amount on either side, as a depreciation has.
abbrev pub IsMirrored : List Line → Type 0
IsMirrored ls =
    (a : Line) × (b : Line) × (ls ≡ a ∷ b ∷ []) × (a.debit ≡ b.credit) × (a.credit ≡ b.debit)

-- What every entry keeps to: it is stored in cents and even, or it is mirrored.
abbrev pub IsNear : Decimals → ℕ → Entry → Type 0
IsNear D half e = (All (StoredInCents D) e.lines × IsEven half e.lines) ⊎ IsMirrored e.lines

pub IsNear-IsEven : (D : Decimals) (half : ℕ) (e : Entry) → IsNear D half e → IsEven half e.lines
IsNear-IsEven D half e (inl (cents, even)) = even
IsNear-IsEven D half e (inr (a, b, two, p, q)) = rw two (grind int_laws, grind int_laws)

reverse_lines-allowed :
    (D : Decimals) (half : ℕ) (tenant : ℕ) (now : Date) (id : ℕ) (ls : List Line)
    → allowed half (reverse_lines D tenant now id ls) ≡ allowed half ls
unfolding reverse_lines
reverse_lines-allowed D half tenant now id [] = refl
reverse_lines-allowed D half tenant now id (l ∷ ls) =
    ground (arith, reverse_lines-allowed D half tenant now (id + 1) ls)

reverse_lines-StoredInCents :
    (D : Decimals) (half : ℕ) (tenant : ℕ) (now : Date) (id : ℕ) (ls : List Line)
    → IsRounding D half
    → All (StoredInCents D) (reverse_lines D tenant now id ls)
unfolding reverse_lines
reverse_lines-StoredInCents D half tenant now id [] r = tt
reverse_lines-StoredInCents D half tenant now id (l ∷ ls) r = (
  (r.again l.credit, r.again l.debit),
  reverse_lines-StoredInCents D half tenant now (id + 1) ls r,
)

reverse_lines-IsMirrored :
    (D : Decimals) (tenant : ℕ) (now : Date) (id : ℕ) (ls : List Line)
    → IsMirrored ls
    → IsMirrored (reverse_lines D tenant now id ls)
unfolding reverse_lines
reverse_lines-IsMirrored D tenant now id ls (a, b, two, p, q) =
    rw two (_, _, refl, ap (D.column 2) q, ap (D.column 2) p)

-- the reversal of an entry that keeps to it keeps to it
pub reversal-IsNear :
    (D : Decimals) (half : ℕ) (tenant : ℕ) (now : Date) (id : ℕ) (o e : Entry)
    → IsRounding D half
    → e.lines ≡ reverse_lines D tenant now id o.lines
    → IsNear D half o
    → IsNear D half e
reversal-IsNear D half tenant now id o e r made (inl (cents, even)) =
    let (ds, cs) = sum-reverse_lines D tenant now id o.lines cents in
    let back = sum_by-sub line_debit line_credit (reverse_lines D tenant now id o.lines) in
    let there = sum_by-sub line_debit line_credit o.lines in
    let size = reverse_lines-allowed D half tenant now id o.lines in
    inl (
      rw made (
        reverse_lines-StoredInCents D half tenant now id o.lines r,
        (grind int_laws, grind int_laws),
      ))
reversal-IsNear D half tenant now id o e r made (inr mirrored) =
    inr (rw made (reverse_lines-IsMirrored D tenant now id o.lines mirrored))

entry-IsEven :
    (half : ℕ) (p : Entry → Bool) (tenant : ℕ) (e : Entry)
    → IsEven half e.lines
    → IsOwned e
    → IsEven half (select (λ l. l.tenant == tenant) (if p e then e.lines else []))
entry-IsEven half p tenant e b o = elim (Bool-cases (p e)) [
  | inr left ↦ rw left (grind int_laws, grind int_laws)
  | inl taken ↦ elim (Bool-cases (e.tenant == tenant)) [
    | inl own ↦ rw (taken, select_owned tenant e.tenant e.lines o, own) b
    | inr other ↦
        rw (taken, select_owned tenant e.tenant e.lines o, other) (grind int_laws, grind int_laws)
  ]
]

lines_of-IsEven :
    (half : ℕ) (p : Entry → Bool) (tenant : ℕ) (es : List Entry)
    → All (λ e. IsEven half e.lines) es
    → All IsOwned es
    → IsEven half (select (λ l. l.tenant == tenant) (lines_of p es))
lines_of-IsEven half p tenant [] b o = (grind int_laws, grind int_laws)
lines_of-IsEven half p tenant (e ∷ es) b o = rw select-append (
    IsEven-append half (select (λ l. l.tenant == tenant) (if p e then e.lines else []))
      (select (λ l. l.tenant == tenant) (lines_of p es)) (entry-IsEven half p tenant e b.0 o.0)
      (lines_of-IsEven half p tenant es b.1 o.1))

pub posted_lines-IsEven :
    (half : ℕ) (tenant : ℕ) (start end : Option Date) (db : Db)
    → All (λ e. IsEven half e.lines) db.entries
    → All IsOwned db.entries
    → IsEven half (posted_lines tenant start end db)
unfolding posted_lines
posted_lines-IsEven half tenant start end db b o =
    lines_of-IsEven half (λ e. is_posted e.status && in_range start end e.date) tenant db.entries b
      o
