-- ===== src/ArchiveB/Certificates.antt =====
-- implementations/archive-b/src/certificates.ts: the shape of a certificate, and the round's coordinator.
pub mod Shape
pub mod Encoding
pub mod Roster
pub mod Coordinator
mod Tests
use co_net_dle.Common.{
  ℕ, zero, suc, ◌+◌, ◌*◌, ◌/◌, ◌%◌, ◌^◌, Bool, true, false, not, ◌&&◌, ◌||◌, Option, none, some,
  List, [], ◌∷◌, ◌++◌, Result, ok, err, ◌>>=◌, ◌>>◌, throw_if, ltb, leb, ◌==◌, if◌then◌else◌,
  length, get_elem?, take, Text, text_eq, text_beq, set_size, Bytes, le_bytes, le_rest, from_le,
  replicate,
}

pub data CertificateName : Type 0 where
  prevote_qc archive_certificate timeout_certificate candidate_reject : CertificateName

pub data CertificateError : Type 0 where
  err_cert_kind err_cert_signers err_cert_signatures err_cert_bitmap err_cert_threshold :
      CertificateError
  err_reject_evidence err_membership_5_active err_invalid_coordinator err_integer_overflow :
      CertificateError

-- The field `kind` of `CERTIFICATES`.
abbrev pub kind_of : CertificateName → ℕ
kind_of prevote_qc = 1
kind_of archive_certificate = 2
kind_of timeout_certificate = 3
kind_of candidate_reject = 4

-- The fields that are validated, of a value whose hex texts are well formed and given in lower case as
-- their bytes. `signer_bitmap` is an integer that is not negative.
pub record CertificateValue : Type 0 where
  pub kind : ℕ
  pub signer_bitmap : ℕ
  pub signer_ids : List Bytes
  pub signatures : List Bytes
  pub evidence_hash : Bytes

abbrev pub all_width : ℕ → List Bytes → Bool
all_width n [] = true
all_width n (b ∷ bs) = length b == n && all_width n bs

abbrev pub zero_signature : Bytes
zero_signature = replicate 65 0

-- `(bitmap >> bit) & 1`.
abbrev pub bit_of : ℕ → ℕ → ℕ
bit_of bitmap bit = bitmap / 2 ^ bit % 2

abbrev pub bit_count : ℕ → ℕ
bit_count b = bit_of b 0 + bit_of b 1 + bit_of b 2 + bit_of b 3 + bit_of b 4

abbrev pub same_bool : Bool → Bool → Bool
same_bool true b = b
same_bool false b = not b

-- The loop over the signatures, from an index on.
unfoldable pub check_signatures : ℕ → ℕ → List Bytes → Result CertificateError (Unit {0})
check_signatures bitmap i [] = ok tt
check_signatures bitmap i (signature ∷ rest) =
    let later = check_signatures bitmap (i + 1) rest in
    if not (length signature == 65)
    then err err_cert_signatures
    else if same_bool (bit_of bitmap i == 1) (text_beq signature zero_signature)
    then err err_cert_bitmap
    else later

abbrev pub is_reject : CertificateName → Bool
is_reject candidate_reject = true
is_reject _ = false

unfoldable pub validate_certificate :
    CertificateName → CertificateValue → Result CertificateError (Unit {0})
unfolding check_signatures
validate_certificate name v = do
  throw_if (not (v.kind == kind_of name)) err_cert_kind
  throw_if (not (length v.signer_ids == 5)) err_cert_signers
  throw_if (not (length v.signatures == 5)) err_cert_signatures
  throw_if (not (all_width 32 v.signer_ids) || not (set_size v.signer_ids == 5)) err_cert_signers
  throw_if (ltb 31 v.signer_bitmap) err_cert_bitmap
  throw_if (ltb (bit_count v.signer_bitmap) 4 || ltb 5 (bit_count v.signer_bitmap))
      err_cert_threshold
  check_signatures v.signer_bitmap 0 v.signatures
  throw_if (is_reject name && text_beq v.evidence_hash (replicate 32 0)) err_reject_evidence
  ok tt

-- `uintLe`.
unfoldable pub uint_le : ℕ → ℕ → Result CertificateError Bytes
uint_le value width =
    if le_rest width value == 0 then ok (le_bytes width value) else err err_integer_overflow

-- `Buffer.compare(a, b) <= 0`.
abbrev pub bytes_le : Bytes → Bytes → Bool
bytes_le [] t = true
bytes_le (b ∷ s) [] = false
bytes_le (b ∷ s) (c ∷ t) = if ltb b c then true else if ltb c b then false else bytes_le s t

unfoldable pub insert_member : Bytes → List Bytes → List Bytes
insert_member a [] = a ∷ []
insert_member a (b ∷ bs) =
    let rest = insert_member a bs in if bytes_le a b then a ∷ b ∷ bs else b ∷ rest

unfoldable pub sort_members : List Bytes → List Bytes
unfolding insert_member
sort_members [] = []
sort_members (a ∷ rest) = insert_member a (sort_members rest)

pub record CoordinatorInput : Type 0 where
  pub archive_group_id : ℕ
  pub chain_nft_id : ℕ
  pub tip_height : ℕ
  pub attempt_nonce : ℕ
  pub membership_root : Bytes
  pub round : ℕ
  pub active_roster : List Bytes

pub record CoordinatorDetails : Type 0 where
  pub canonical_roster : List Bytes
  pub digest : Bytes
  pub sample : ℕ
  pub index : ℕ
  pub coordinator : Bytes
  pub counter : ℕ

-- `((1n << 64n) / 5n) * 5n`.
abbrev pub sample_limit : ℕ
sample_limit = 2 ^ 64 / 5 * 5

-- The loop over the counter, on the number of counters left, which is 2 ^ 32 at the start.
unfoldable pub draw :
    (Bytes → Bytes) → Bytes → List Bytes → ℕ → ℕ → Result CertificateError CoordinatorDetails
draw sha256 base roster counter zero = err err_invalid_coordinator
draw sha256 base roster counter (suc left) = do
  tail ← uint_le counter 4
  let digest = sha256 (base ++ tail)
  let sample = from_le (take 8 digest)
  let next = draw sha256 base roster (counter + 1) left
  if ltb sample sample_limit
      then elim (get_elem? roster (sample % 5)) [
        | none ↦ err err_invalid_coordinator
        | some c ↦ ok (record {
          canonical_roster = roster;
          digest = digest;
          sample = sample;
          index = sample % 5;
          coordinator = c;
          counter = counter;
        })
      ]
      else next

abbrev pub coordinator_domain : Bytes
coordinator_domain =
    b'd' ∷ b'l' ∷ b'e' ∷ b'.' ∷ b'a' ∷ b'r' ∷ b'c' ∷ b'h' ∷ b'i' ∷ b'v' ∷ b'e' ∷ b'.' ∷ b'c' ∷ b'o'
    ∷ b'o' ∷ b'r' ∷ b'd' ∷ b'i' ∷ b'n' ∷ b'a' ∷ b't' ∷ b'o' ∷ b'r' ∷ b'.' ∷ b'v' ∷ b'1' ∷ []

unfoldable pub select_coordinator_details :
    (Bytes → Bytes) → CoordinatorInput → ℕ → Result CertificateError CoordinatorDetails
unfolding draw sort_members uint_le
select_coordinator_details sha256 x counters = do
  throw_if (not (length x.active_roster == 5) || not (set_size x.active_roster == 5))
      err_membership_5_active
  group ← uint_le x.archive_group_id 8
  chain ← uint_le x.chain_nft_id 32
  height ← uint_le x.tip_height 8
  nonce ← uint_le x.attempt_nonce 8
  round ← uint_le x.round 4
  draw sha256
      (coordinator_domain
        ++ (group ++ (chain ++ (height ++ (nonce ++ (x.membership_root ++ round))))))
      (sort_members x.active_roster) 0 counters
