-- ===== src/Zatca.antt =====
-- The QR code of an e-invoice (apps/api/src/modules/ksa-compliance/zatca/zatca.service.ts): the
-- tags, lengths and values that `generateZatcaData` concatenates. A text is the list of its UTF-8
-- bytes; the base64 text of the whole is left out.
pub mod RoundTrip
use erp_ai_private.Prelude.{ℕ, ◌%◌, List, [], ◌∷◌, ◌++◌, length}

-- `toTlv`: `Buffer.from([n])` keeps the lowest byte of n
unfoldable pub to_tlv : ℕ → List ℕ → List ℕ
to_tlv tag value = tag % 256 ∷ length value % 256 ∷ value

-- what goes into the code
pub record QrFields : Type 0 where
  pub seller_name : List ℕ
  pub vat_number : List ℕ
  pub timestamp : List ℕ
  pub invoice_total : List ℕ
  pub vat_total : List ℕ
  pub xml_hash : List ℕ
  pub signature : List ℕ
  pub public_key : List ℕ

abbrev pub tagged : QrFields → List (ℕ × List ℕ)
tagged f =
    (1, f.seller_name)
    ∷ (2, f.vat_number)
    ∷ (3, f.timestamp)
    ∷ (4, f.invoice_total)
    ∷ (5, f.vat_total)
    ∷ (6, f.xml_hash)
    ∷ (7, f.signature)
    ∷ (8, f.public_key)
    ∷ []

-- `Buffer.concat` over the tags
unfoldable pub concat_tlv : List (ℕ × List ℕ) → List ℕ
concat_tlv [] = []
concat_tlv (f ∷ fs) = to_tlv f.0 f.1 ++ concat_tlv fs

unfoldable pub qr_code_buffer : QrFields → List ℕ
qr_code_buffer f = concat_tlv (tagged f)
