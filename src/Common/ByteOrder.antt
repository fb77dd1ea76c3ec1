-- ===== src/Common/ByteOrder.antt =====
-- Little-endian numbers in bytes.
use Prim.Native.Nat.{ℕ, zero, suc, ◌+◌, ◌*◌, ◌/◌, ◌%◌, ◌^◌, ◌<◌}
use mathlib.Core.Path.{◌≡◌, refl, ap}
use mathlib.Core.List.{List, [], ◌∷◌}
use native.Mathlib.Omega.{arith}
use native.Mathlib.Nat.{pow-suc}
use co_net_dle.Common.Lists.{length}

abbrev pub Bytes : Type 0
Bytes = List ℕ

-- The loop `output[i] = rest & 0xff; rest >>= 8` over `width` bytes: the bytes.
unfoldable pub le_bytes : ℕ → ℕ → Bytes
le_bytes zero value = []
le_bytes (suc width) value = value % 256 ∷ le_bytes width (value / 256)

-- The same loop: what is left of the number.
unfoldable pub le_rest : ℕ → ℕ → ℕ
le_rest zero value = value
le_rest (suc width) value = le_rest width (value / 256)

-- `value = (value << 8) | bytes[i]`, from the last byte down to the first.
unfoldable pub from_le : Bytes → ℕ
from_le [] = 0
from_le (b ∷ bs) = from_le bs * 256 + b

pub length-le_bytes : (width value : ℕ) → length (le_bytes width value) ≡ width
unfolding le_bytes
length-le_bytes zero value = refl
length-le_bytes (suc width) value = ap suc (length-le_bytes width (value / 256))

-- The bytes and the rest together are the number.
pub from_le-le_bytes :
    (width value : ℕ) → from_le (le_bytes width value) + le_rest width value * 256 ^ width ≡ value
unfolding le_bytes le_rest from_le
from_le-le_bytes zero value = omega arith
from_le-le_bytes (suc width) value =
    rw pow-suc (omega (arith, from_le-le_bytes width (value / 256)))

small : (v p : ℕ) → v < p * 256 → v / 256 < p
small v p h = omega arith

-- A number below the bound leaves no rest.
pub le_rest-zero : (width value : ℕ) → value < 256 ^ width → le_rest width value ≡ 0
unfolding le_rest
le_rest-zero zero value h = omega arith
le_rest-zero (suc width) value h =
    le_rest-zero width (value / 256) (small (value) (256 ^ width) (rw pow-suc at h))

-- Numbers below the bound come back.
pub from_le-of_bytes :
    (width value : ℕ) → value < 256 ^ width → from_le (le_bytes width value) ≡ value
from_le-of_bytes width value h =
    let none_left = le_rest-zero width value h in
    let whole : from_le (le_bytes width value) + 0 * 256 ^ width ≡ value =
      rw none_left at (from_le-le_bytes width value) in
    omega (arith, whole)
