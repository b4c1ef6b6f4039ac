-- ===== src/Examples/Zatca.antt =====
-- The QR code at concrete fields.
use erp_ai_private.Prelude.{ℕ, zero, suc, ◌≡◌, ◌≢◌, List, [], ◌∷◌, ◌++◌, some, length, arith}
use erp_ai_private.Zatca.{to_tlv, QrFields, tagged, qr_code_buffer}
use erp_ai_private.Zatca.RoundTrip.{read_tlv, qr_code_buffer-read_tlv, to_tlv_long}

abbrev printed : QrFields
printed = record {
  seller_name = 83 ∷ 65 ∷ [];
  vat_number = 51 ∷ [];
  timestamp = 50 ∷ [];
  invoice_total = 49 ∷ 49 ∷ 53 ∷ [];
  vat_total = 49 ∷ 53 ∷ [];
  xml_hash = 97 ∷ [];
  signature = 98 ∷ [];
  public_key = [];
}

qr_code_buffer-read_tlv_example :
    read_tlv (length (qr_code_buffer printed)) (qr_code_buffer printed) ≡ some (tagged printed)
qr_code_buffer-read_tlv_example = qr_code_buffer-read_tlv printed (
  (ground arith, ground arith),
  (
    (ground arith, ground arith),
    (
      (ground arith, ground arith),
      (
        (ground arith, ground arith),
        (
          (ground arith, ground arith),
          (
            (ground arith, ground arith),
            ((ground arith, ground arith), ((ground arith, ground arith), tt)),
          ),
        ),
      ),
    ),
  ),
)

-- a name of so many letters
abbrev letters : ℕ → List ℕ
letters zero = []
letters (suc n) = 65 ∷ letters n

to_tlv_long_example : read_tlv 1 (to_tlv 1 (letters 256) ++ []) ≢ some ((1, letters 256) ∷ [])
to_tlv_long_example = to_tlv_long 1 1 (letters 256) [] [] (ground arith)
