-- ===== src/ArchiveB/Wal/Errors.antt =====
-- The errors of the log, and its fixed-width numbers and hex fields.
use co_net_dle.Common.{
  ℕ, ◌^◌, ◌<◌, ◌≡◌, arith, Result, ok, err, ◌==◌, if◌then◌else◌, length, Bytes, le_bytes, le_rest,
  le_rest-zero,
}

pub data WalError : Type 0 where
  err_wal_integer_overflow err_wal_field err_signing_root_mismatch err_wal_safety_length : WalError
  err_wal_truncated err_wal_header err_wal_checksum : WalError
  err_wal_recovery_required err_wal_double_sign err_wal_write : WalError
  out_of_fuel : WalError

-- `littleEndian`; numbers here are not negative.
unfoldable pub little_endian : ℕ → ℕ → Result WalError Bytes
little_endian value width =
    if le_rest width value == 0 then ok (le_bytes width value) else err err_wal_integer_overflow

-- `fixedHex`, of a hex text given as the bytes that it spells.
unfoldable pub fixed_hex : Bytes → ℕ → Result WalError Bytes
fixed_hex value width = if length value == width then ok value else err err_wal_field

pub little_endian-ok :
    (value width : ℕ) → value < 256 ^ width → little_endian value width ≡ ok (le_bytes width value)
unfolding little_endian
little_endian-ok value width h = ground (arith, le_rest-zero width value h)

pub fixed_hex-ok :
    (value : Bytes) (width : ℕ) → length value ≡ width → fixed_hex value width ≡ ok value
unfolding fixed_hex
fixed_hex-ok value width h = ground arith
