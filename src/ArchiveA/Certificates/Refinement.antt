-- ===== src/ArchiveA/Certificates/Refinement.antt =====
-- Certificates that implementations/archive-a/src/core.ts accepts, beside
-- implementations/archive-b/src/certificates.ts.
use co_net_dle.Common.{
  ℕ, zero, suc, ◌+◌, ◌^◌, ◌≤◌, ◌<◌, ◌≡◌, refl, Bool, true, false, not, ◌&&◌, ◌||◌, List, [], ◌∷◌,
  arith, ok, ltb, leb, ◌==◌, ==_iff, length, Bytes, replicate, text_beq, guard-ok, throw_if-ok,
  leb→le, set_size, text_eq,
}
use co_net_dle.ArchiveA.Types.{
  invalid_certificate_reference, invalid_reject_reason, invalid_reject_evidence,
}
use co_net_dle.ArchiveA.Certificates.{
  zero32, Certificate, to_uint32, popcount, validate_certificate, slots_fit, is_rising,
}
use co_net_dle.ArchiveB.Certificates as B
use co_net_dle.ArchiveB.Certificates.{
  CertificateName, CertificateValue, all_width, bit_count, bit_of,
}

abbrev pub b_value : Certificate → CertificateValue
b_value c = record {
  kind = c.kind;
  signer_bitmap = c.signer_bitmap;
  signer_ids = c.signer_ids;
  signatures = c.signatures;
  evidence_hash = c.evidence_hash;
}

-- A test of the numbers below a bound, from the least to the largest.
abbrev passes_to : (ℕ → Bool) → ℕ → Bool
passes_to test zero = true
passes_to test (suc k) = passes_to test k && test k

passes_at : (test : ℕ → Bool) (k n : ℕ) → passes_to test k ≡ true → n < k → test n ≡ true
passes_at test zero n all less = ground arith
passes_at test (suc k) n all less = ground (arith, passes_at test k n)

abbrev same_count : ℕ → Bool
same_count x = popcount x == bit_count x

abbrev few_bits : ℕ → Bool
few_bits x = leb (bit_count x) 5

counts_same : passes_to same_count 32 ≡ true
unfolding popcount
counts_same = refl

counts_few : passes_to few_bits 32 ≡ true
counts_few = refl

bits_agree : (x : ℕ) → x < 32 → (popcount x ≡ bit_count x) × (bit_count x ≤ 5)
bits_agree x h = (
  (==_iff (popcount x) (bit_count x)).0 (passes_at same_count 32 x counts_same h),
  leb→le (bit_count x) 5 (passes_at few_bits 32 x counts_few h),
)

slots_agree :
    (bitmap index : ℕ) (signatures : List Bytes)
    → bitmap < 2 ^ 32
    → slots_fit bitmap index signatures ≡ true
    → all_width 65 signatures ≡ true
    → B.check_signatures bitmap index signatures ≡ ok tt
unfolding B.check_signatures
slots_agree bitmap index [] b h w = refl
slots_agree bitmap index (s ∷ rest) b h w =
    let same : to_uint32 bitmap ≡ bitmap = omega (arith, b) in
    let h2 : slots_fit bitmap (index + 1) rest ≡ true = ground arith in
    let w2 : all_width 65 rest ≡ true = ground arith in
    let more = slots_agree bitmap (index + 1) rest b h2 w2 in ground (arith, same, more)

-- What archive-a's validation has found when it returns.
record Accepted (c : Certificate) : Type 0 where
  small : (leb 32 (to_uint32 c.signer_bitmap) || ltb (popcount c.signer_bitmap) 4) ≡ false
  five_ids : (not (length c.signer_ids == 5) || not (set_size c.signer_ids == 5)) ≡ false
  sorted : not (is_rising c.signer_ids) ≡ false
  five_signatures : not (length c.signatures == 5) ≡ false
  slots : not (slots_fit c.signer_bitmap 0 c.signatures) ≡ false
  references :
      (c.kind == 2 && (text_beq c.value_hash zero32 || text_beq c.prevote_qc_ref zero32)) ≡ false
  reason : (c.kind == 4 && not (leb 1 c.reason_code && leb c.reason_code 8)) ≡ false
  evidence : (c.kind == 4 && text_beq c.evidence_hash (replicate 32 0)) ≡ false

accepted : (c : Certificate) → validate_certificate c ≡ ok tt → Accepted c
unfolding validate_certificate
accepted c h =
    let (small, h1) = guard-ok _ _ _ tt h in
    let (five_ids, h2) = guard-ok _ _ _ tt h1 in
    let (sorted, h3) = guard-ok _ _ _ tt h2 in
    let (five_signatures, h4) = guard-ok _ _ _ tt h3 in
    let (slots, h5) = guard-ok _ _ _ tt h4 in
    let (references, h6) = guard-ok _ invalid_certificate_reference _ tt h5 in
    let (reason, h7) = guard-ok _ invalid_reject_reason _ tt h6 in
    record {
      small = small;
      five_ids = five_ids;
      sorted = sorted;
      five_signatures = five_signatures;
      slots = slots;
      references = references;
      reason = reason;
      evidence = throw_if-ok _ invalid_reject_evidence tt h7;
    }

no_evidence_needed :
    (name : CertificateName) (c : Certificate)
    → c.kind ≡ B.kind_of name
    → Accepted c
    → (B.is_reject name && text_beq c.evidence_hash (replicate 32 0)) ≡ false
no_evidence_needed CertificateName.prevote_qc c k a = refl
no_evidence_needed CertificateName.archive_certificate c k a = refl
no_evidence_needed CertificateName.timeout_certificate c k a = refl
no_evidence_needed CertificateName.candidate_reject c k a = ground (arith, a.evidence)

-- A certificate that archive-a accepts, with its kind's name, signers of 32 bytes and signatures of 65
-- bytes, and a bitmap of 32 bits, is accepted by archive-b.
pub accepted_by_both :
    (name : CertificateName) (c : Certificate)
    → c.kind ≡ B.kind_of name
    → c.signer_bitmap < 2 ^ 32
    → all_width 32 c.signer_ids ≡ true
    → all_width 65 c.signatures ≡ true
    → validate_certificate c ≡ ok tt
    → B.validate_certificate name (b_value c) ≡ ok tt
unfolding B.validate_certificate
accepted_by_both name c k b ids signatures h =
    let a = accepted c h in
    let same : to_uint32 c.signer_bitmap ≡ c.signer_bitmap = omega (arith, b) in
    let small : c.signer_bitmap < 32 = ground (arith, a.small, same) in
    let (count, most) = bits_agree c.signer_bitmap small in
    let fit : slots_fit c.signer_bitmap 0 c.signatures ≡ true = ground (arith, a.slots) in
    let checked = slots_agree c.signer_bitmap 0 c.signatures b fit signatures in
    let evidence = no_evidence_needed name c k a in
    let right_kind : (c.kind == B.kind_of name) ≡ true = (==_iff c.kind (B.kind_of name)).1 k in
    let five : (length c.signer_ids == 5) ≡ true = ground (arith, a.five_ids) in
    let different : (set_size c.signer_ids == 5) ≡ true = ground (arith, a.five_ids) in
    let slots : (length c.signatures == 5) ≡ true = ground (arith, a.five_signatures) in
    let bitmap : ltb 31 c.signer_bitmap ≡ false = ground (arith, small) in
    let quorum : ltb (popcount c.signer_bitmap) 4 ≡ false = ground (arith, a.small) in
    let enough : ltb (bit_count c.signer_bitmap) 4 ≡ false = rw (← count) quorum in
    let few : ltb 5 (bit_count c.signer_bitmap) ≡ false = ground (arith, most) in
    rw (right_kind, five, slots, ids, different, bitmap, enough, few, checked, evidence) refl
