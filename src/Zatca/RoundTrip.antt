-- ===== src/Zatca/RoundTrip.antt =====
-- Reading the QR code back, as a scanner does: a tag, a length and so many bytes.
use erp_ai_private.Prelude.{
  ℕ, zero, suc, ◌%◌, ◌≤◌, ◌<◌, ◌≡◌, ◌≢◌, refl, sym, ap, ◌∙◌, List, [], ◌∷◌, ◌++◌, Option, none,
  some, arith, All, length, Option-cases, inl, inr,
}
use erp_ai_private.Zatca.{to_tlv, QrFields, tagged, concat_tlv, qr_code_buffer}

-- the first n bytes and the rest, if there are so many
unfoldable pub split_bytes : ℕ → List ℕ → Option (List ℕ × List ℕ)
split_bytes zero bytes = some ([], bytes)
split_bytes (suc n) [] = none
split_bytes (suc n) (b ∷ bytes) = elim (split_bytes n bytes) [
  | none ↦ none
  | some r ↦ some (b ∷ r.0, r.1)
]

-- The fields that the bytes stand for, at most so many.
unfoldable pub read_tlv : ℕ → List ℕ → Option (List (ℕ × List ℕ))
read_tlv k [] = some []
read_tlv zero (b ∷ bs) = none
read_tlv (suc k) (t ∷ []) = none
read_tlv (suc k) (t ∷ n ∷ bytes) = elim (split_bytes n bytes) [
  | none ↦ none
  | some r ↦ elim (read_tlv k r.1) [ none ↦ none | some rest ↦ some ((t, r.0) ∷ rest) ]
]

split_bytes-append :
    (value rest : List ℕ) → split_bytes (length value) (value ++ rest) ≡ some (value, rest)
unfolding split_bytes
split_bytes-append [] rest = refl
split_bytes-append (b ∷ value) rest = rw (split_bytes-append value rest) refl

-- the tag and the length fit a byte
abbrev pub IsShort : ℕ × List ℕ → Type 0
IsShort f = (f.0 < 256) × (length f.1 < 256)

read_field :
    (k tag n : ℕ) (bytes value rest : List ℕ) (fs : List (ℕ × List ℕ))
    → split_bytes n bytes ≡ some (value, rest)
    → read_tlv k rest ≡ some fs
    → read_tlv (suc k) (tag ∷ n ∷ bytes) ≡ some ((tag, value) ∷ fs)
unfolding read_tlv
read_field k tag n bytes value rest fs h g = ground (arith, h, g)

read_tlv-concat_tlv :
    (k : ℕ) (fs : List (ℕ × List ℕ))
    → All IsShort fs
    → length fs ≤ k
    → read_tlv k (concat_tlv fs) ≡ some fs
unfolding concat_tlv to_tlv read_tlv
read_tlv-concat_tlv zero [] h l = refl
read_tlv-concat_tlv (suc k) [] h l = refl
read_tlv-concat_tlv zero (f ∷ fs) h l = absurd (omega arith)
read_tlv-concat_tlv (suc k) (f ∷ fs) h l =
    let (fits_tag, fits_size) = h.0 in
    let tag : f.0 % 256 ≡ f.0 = omega arith in
    let size : length f.1 % 256 ≡ length f.1 = omega arith in
    let rest = read_tlv-concat_tlv k fs h.1 (omega arith) in
    rw (tag, size)
      (read_field k f.0 (length f.1) (f.1 ++ concat_tlv fs) f.1 (concat_tlv fs) fs
        (split_bytes-append f.1 (concat_tlv fs)) rest)

length-append : (xs ys : List ℕ) → length ys ≤ length (xs ++ ys)
length-append [] ys = omega arith
length-append (x ∷ xs) ys = let rest = length-append xs ys in omega arith

length-concat_tlv : (fs : List (ℕ × List ℕ)) → length fs ≤ length (concat_tlv fs)
unfolding concat_tlv to_tlv
length-concat_tlv [] = omega arith
length-concat_tlv (f ∷ fs) =
    let more = length-append f.1 (concat_tlv fs) in let rest = length-concat_tlv fs in omega arith

-- The QR code gives back its eight fields with their tags, where each field is shorter than 256
-- bytes: as many steps as the code has bytes read all of it.
pub qr_code_buffer-read_tlv :
    (f : QrFields)
    → All IsShort (tagged f)
    → read_tlv (length (qr_code_buffer f)) (qr_code_buffer f) ≡ some (tagged f)
unfolding qr_code_buffer
qr_code_buffer-read_tlv f h =
    read_tlv-concat_tlv (length (concat_tlv (tagged f))) (tagged f) h (length-concat_tlv (tagged f))

split_bytes-length :
    (n : ℕ) (bytes : List ℕ) {r : List ℕ × List ℕ} → split_bytes n bytes ≡ some r → length r.0 ≡ n
unfolding split_bytes
split_bytes-length zero bytes h = ground arith
split_bytes-length (suc n) [] h = absurd cc
split_bytes-length (suc n) (b ∷ bytes) {r = r} h = elim (Option-cases (split_bytes n bytes)) [
  | inl short ↦ absurd (ground arith)
  | inr (s, split) ↦ ground (arith, split_bytes-length n bytes split)
]

first_value :
    {t u : ℕ} {v w : List ℕ} {fs gs : List (ℕ × List ℕ)}
    → some ((t, v) ∷ fs) ≡ some ((u, w) ∷ gs)
    → v ≡ w
first_value h = cc

long_value :
    (value : List ℕ) {v : List ℕ}
    → v ≡ value
    → length v ≡ length value % 256
    → 256 ≤ length value
    → ⊥
long_value value same size h =
    let whole : length value ≡ length value % 256 = ap length (sym same) ∙ size in
    absurd (omega arith)

-- A field of 256 bytes or more is never read back: its length does not fit the byte that the code
-- has for it, whatever follows the field and however many steps are taken.
pub to_tlv_long :
    (k tag : ℕ) (value rest : List ℕ) (fs : List (ℕ × List ℕ))
    → 256 ≤ length value
    → read_tlv k (to_tlv tag value ++ rest) ≢ some ((tag, value) ∷ fs)
unfolding to_tlv read_tlv
to_tlv_long zero tag value rest fs h e = absurd cc
to_tlv_long (suc k) tag value rest fs h e =
    elim (Option-cases (split_bytes (length value % 256) (value ++ rest))) [
      | inl short ↦ absurd (ground arith)
      | inr (r, split) ↦
          let size : length r.0 ≡ length value % 256 =
            split_bytes-length (length value % 256) (value ++ rest) split in
          elim (Option-cases (read_tlv k r.1)) [
            | inl bad ↦ absurd (ground arith)
            | inr (gs, good) ↦
                let whole =
                  read_field k (tag % 256) (length value % 256) (value ++ rest) r.0 r.1 gs split
                    good in
                long_value value (first_value (sym whole ∙ e)) size h
          ]
    ]
