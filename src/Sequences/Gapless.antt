-- ===== src/Sequences/Gapless.antt =====
-- The numbers that `getNextSequence` hands out.
use erp_ai_private.Prelude.{ℕ, ◌+◌, ◌==◌, ◌≡◌, List, [], ◌∷◌, ◌&&◌, arith, if◌then◌else◌}
use erp_ai_private.Db.{SequenceType, sequence_code, DocumentPrefix, Sequence, Db, ok}
use erp_ai_private.Sequences.{upsert, current, get_next_sequence}

pub current-upsert :
    (tenant t : ℕ) (type u : SequenceType) (prefix : DocumentPrefix) (ss : List Sequence)
    → current t u (upsert tenant type prefix ss) ≡ (
        if t == tenant && sequence_code u == sequence_code type
        then current t u ss + 1
        else current t u ss)
unfolding upsert
current-upsert tenant t type u prefix [] = ground arith
current-upsert tenant t type u prefix (s ∷ ss) =
    ground (arith, current-upsert tenant t type u prefix ss)

-- `getNextSequence` returns the number after the sequence's last one, with the given prefix and
-- year, and that number is the sequence's last one from then on; every other sequence, of this or
-- another tenant, keeps its number.
pub get_next_sequence-current :
    (tenant t : ℕ) (type u : SequenceType) (prefix : DocumentPrefix) (year : ℕ) (db : Db)
    → let db' = (get_next_sequence tenant type prefix year db).1 in
      ((get_next_sequence tenant type prefix year db).0
        ≡ ok (record { prefix = prefix; year = year; seq = current tenant type db.sequences + 1 }))
      × (current t u db'.sequences ≡ (
          if t == tenant && sequence_code u == sequence_code type
          then current t u db.sequences + 1
          else current t u db.sequences))
unfolding get_next_sequence
get_next_sequence-current tenant t type u prefix year db = (
  ground (arith, current-upsert tenant tenant type type prefix db.sequences),
  current-upsert tenant t type u prefix db.sequences,
)
