-- ===== src/ArchiveB/Wal/Reader.antt =====
-- The `take` of `decodeWalSafetyRecord`: fields read one after the other from what is left of the
-- payload.
use mathlib.Core.List.{append-nil}
use co_net_dle.Common.{
  [], ap, sym, ◌∙◌, ℕ, ◌^◌, ◌<◌, ◌≡◌, ◌++◌, length, take, drop, take-append_of, drop-append_of,
  Bytes, le_bytes, length-le_bytes, from_le, from_le-of_bytes,
}

abbrev pub Reader : Type 0 → Type 0
Reader A = Bytes → A × Bytes

infixl 5 ◌>>=◌
unfoldable pub ◌>>=◌ : {A B : Type 0} → Reader A → (A → Reader B) → Reader B
◌>>=◌ m f bytes = let (a, rest) = m bytes in f a rest

unfoldable pub pure : {A : Type 0} → A → Reader A
pure a bytes = (a, bytes)

unfoldable pub take_bytes : ℕ → Reader Bytes
take_bytes width bytes = (take width bytes, drop width bytes)

unfoldable pub take_number : ℕ → Reader ℕ
take_number width bytes = (from_le (take width bytes), drop width bytes)

module _ {B : Type 0} where
  pub bytes-then :
      (x : Bytes) (w : ℕ)
      → length x ≡ w
      → (rest : Bytes) (f : Bytes → Reader B) → (take_bytes w >>= f) (x ++ rest) ≡ f x rest
  unfolding take_bytes ◌>>=◌
  bytes-then x w h rest f = rw (take-append_of x rest w h, drop-append_of x rest w h)

  pub number-then :
      (v w : ℕ)
      → v < 256 ^ w
      → (rest : Bytes) (f : ℕ → Reader B) → (take_number w >>= f) (le_bytes w v ++ rest) ≡ f v rest
  unfolding take_number ◌>>=◌
  number-then v w h rest f =
      let len = length-le_bytes w v in
      rw (
        take-append_of (le_bytes w v) rest w len,
        drop-append_of (le_bytes w v) rest w len,
        from_le-of_bytes w v h,
      )

  -- The last field of a payload.
  pub number-last :
      (v w : ℕ) → v < 256 ^ w → (f : ℕ → Reader B) → (take_number w >>= f) (le_bytes w v) ≡ f v []
  number-last v w h f =
      ap (take_number w >>= f) (sym (append-nil (le_bytes w v))) ∙ number-then v w h [] f
