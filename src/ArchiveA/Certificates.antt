-- ===== src/ArchiveA/Certificates.antt =====
-- `validateCertificate` of implementations/archive-a/src/core.ts.
pub mod Refinement
mod Tests
use co_net_dle.Common.{
  ℕ, zero, suc, ◌+◌, ◌/◌, ◌%◌, ◌^◌, Bool, true, false, not, ◌&&◌, ◌||◌, List, [], ◌∷◌, Result, ok,
  err, ◌>>=◌, ◌>>◌, throw_if, ltb, leb, ◌==◌, if◌then◌else◌, length, text_beq, text_eq, set_size,
  Bytes, replicate,
}
use co_net_dle.ArchiveA.Types.{
  DleError, invalid_quorum, duplicate_signer, non_canonical_signer_order,
  invalid_certificate_reference, invalid_reject_reason, invalid_reject_evidence,
}

-- The fields that are validated; `value_hash` and `prevote_qc_ref` only where the kind has them, and
-- so `reason_code` and `evidence_hash`. Hex texts are given in lower case as their bytes.
pub record Certificate : Type 0 where
  pub kind : ℕ
  pub signer_bitmap : ℕ
  pub signer_ids : List Bytes
  pub signatures : List Bytes
  pub value_hash : Bytes
  pub prevote_qc_ref : Bytes
  pub reason_code : ℕ
  pub evidence_hash : Bytes

-- A number as the bitwise operators read it.
abbrev pub to_uint32 : ℕ → ℕ
to_uint32 n = n % 2 ^ 32

-- `while (remaining !== 0) { count += remaining & 1; remaining >>>= 1 }`, on the number of turns left.
abbrev pub count_bits : ℕ → ℕ → ℕ
count_bits zero remaining = 0
count_bits (suc left) remaining =
    let rest = count_bits left (to_uint32 remaining / 2) in
    if remaining == 0 then 0 else remaining % 2 + rest

-- 33 turns end at zero: the first leaves a number below 2 ^ 31.
unfoldable pub popcount : ℕ → ℕ
popcount value = count_bits 33 value

-- `Buffer.compare(a, b) < 0`.
abbrev pub bytes_lt : Bytes → Bytes → Bool
bytes_lt a [] = false
bytes_lt [] (c ∷ t) = true
bytes_lt (b ∷ s) (c ∷ t) = if ltb b c then true else if ltb c b then false else bytes_lt s t

-- Each signer is below the next.
abbrev pub rising_after : Bytes → List Bytes → Bool
rising_after before [] = true
rising_after before (id ∷ ids) = bytes_lt before id && rising_after id ids

abbrev pub is_rising : List Bytes → Bool
is_rising [] = true
is_rising (id ∷ ids) = rising_after id ids

-- `(bitmap & (1 << index)) !== 0`.
abbrev pub signed : ℕ → ℕ → Bool
signed bitmap index = to_uint32 bitmap / 2 ^ index % 2 == 1

abbrev pub same_bool : Bool → Bool → Bool
same_bool true b = b
same_bool false b = not b

-- The loop over the five slots, from an index on.
abbrev pub slots_fit : ℕ → ℕ → List Bytes → Bool
slots_fit bitmap index [] = true
slots_fit bitmap index (signature ∷ rest) =
    not (same_bool (signed bitmap index) (text_beq signature (replicate 65 0)))
    && slots_fit bitmap (index + 1) rest

abbrev pub zero32 : Bytes
zero32 = replicate 32 0

unfoldable pub validate_certificate : Certificate → Result DleError (Unit {0})
unfolding popcount
validate_certificate c = do
  throw_if (leb 32 (to_uint32 c.signer_bitmap) || ltb (popcount c.signer_bitmap) 4) invalid_quorum
  throw_if (not (length c.signer_ids == 5) || not (set_size c.signer_ids == 5)) duplicate_signer
  throw_if (not (is_rising c.signer_ids)) non_canonical_signer_order
  throw_if (not (length c.signatures == 5)) invalid_quorum
  throw_if (not (slots_fit c.signer_bitmap 0 c.signatures)) invalid_quorum
  throw_if (c.kind == 2 && (text_beq c.value_hash zero32 || text_beq c.prevote_qc_ref zero32))
      invalid_certificate_reference
  throw_if (c.kind == 4 && not (leb 1 c.reason_code && leb c.reason_code 8)) invalid_reject_reason
  throw_if (c.kind == 4 && text_beq c.evidence_hash zero32) invalid_reject_evidence
