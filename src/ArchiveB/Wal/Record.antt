-- ===== src/ArchiveB/Wal/Record.antt =====
-- `decodeWalSafetyRecord`.
pub mod RoundTrip
use co_net_dle.Common.{ℕ, ◌+◌, not, Result, ok, err, ltb, ◌==◌, if◌then◌else◌, length, Bytes}
use co_net_dle.ArchiveB.Wal.Errors.{WalError, err_wal_safety_length}
use co_net_dle.ArchiveB.Wal.Payload.{DurableVoteRecord}
use co_net_dle.ArchiveB.Wal.Reader.{Reader, ◌>>=◌, pure, take_bytes, take_number}

-- The fixed fields before the sign bytes, and the length of the sign bytes.
pub record Head : Type 0 where
  pub version : ℕ
  pub kind : ℕ
  pub domain : ℕ
  pub height : ℕ
  pub round : ℕ
  pub step : ℕ
  pub size : ℕ

unfoldable pub read_head : Reader Head
read_head = do
  version ← take_number 2
  kind ← take_number 1
  domain ← take_number 1
  height ← take_number 8
  round ← take_number 4
  step ← take_number 1
  size ← take_number 4
  pure (record {
    version = version;
    kind = kind;
    domain = domain;
    height = height;
    round = round;
    step = step;
    size = size;
  })

unfoldable pub read_rest : (Bytes → Bytes) → Head → Reader DurableVoteRecord
read_rest sha256 h = do
  sign_bytes ← take_bytes h.size
  signing_root ← take_bytes 32
  signature ← take_bytes 65
  proposal_hash ← take_bytes 32
  locked_value ← take_bytes 32
  locked_round ← take_number 4
  valid_value ← take_bytes 32
  valid_round ← take_number 4
  prevote_qc_ref ← take_bytes 32
  timeout_certificate_ref ← take_bytes 32
  membership_epoch ← take_number 8
  membership_root ← take_bytes 32
  key_epoch ← take_number 8
  committed_height ← take_number 8
  pure (record {
    version = h.version;
    kind = h.kind;
    domain = h.domain;
    height = h.height;
    round = h.round;
    step = h.step;
    canonical_sign_bytes = sign_bytes;
    sign_bytes_hash = sha256 sign_bytes;
    signing_root = signing_root;
    signature = signature;
    proposal_hash = proposal_hash;
    locked_value = locked_value;
    locked_round = locked_round;
    valid_value = valid_value;
    valid_round = valid_round;
    prevote_qc_ref = prevote_qc_ref;
    timeout_certificate_ref = timeout_certificate_ref;
    membership_epoch = membership_epoch;
    membership_root = membership_root;
    key_epoch = key_epoch;
    committed_height = committed_height;
  })

-- The head takes 21 bytes, so `offset` is 21 at the test; the last test of the source compares the
-- same two numbers once more.
unfoldable pub decode_wal_safety_record :
    (Bytes → Bytes) → Bytes → Result WalError DurableVoteRecord
unfolding read_head read_rest
decode_wal_safety_record sha256 payload =
    if ltb (length payload) 342
    then err err_wal_safety_length
    else let (head, rest) = read_head payload in
      if not (21 + head.size + 321 == length payload)
      then err err_wal_safety_length
      else ok (read_rest sha256 head rest).0
