-- ===== src/Common/Values.antt =====
-- The values and objects of JavaScript that the encoders take.
use Prim.Native.Nat.{ℕ}
use Prim.Native.String.{String}
use mathlib.Core.Bool.{Bool, true, ◌&&◌}
use mathlib.Core.List.{List, [], ◌∷◌}
use co_net_dle.Common.Tests.{if◌then◌else◌}
use co_net_dle.Common.Sets.{string_eq, includes}
use co_net_dle.Common.ByteOrder.{Bytes}

-- A `bigint`, a number or a decimal text that is not negative, a hex text or an array of them by the
-- bytes that they spell, or any other value; booleans and arrays of other things are left out.
pub data Value : Type 0 where
  bigint number decimal : ℕ → Value
  hex : Bytes → Value
  hexes : List Bytes → Value
  other : Value

-- An object, by its entries.
abbrev pub FixedRecord : Type 0
FixedRecord = List (String × Value)

-- `value[name]`; a missing key is `undefined`.
abbrev pub value_at : String → FixedRecord → Value
value_at name [] = other
value_at name ((key, v) ∷ rest) = if string_eq.beq name key then v else value_at name rest

abbrev pub keys : FixedRecord → List String
keys [] = []
keys ((key, v) ∷ rest) = key ∷ keys rest

-- Every one of the first names is among the second.
abbrev pub all_in : List String → List String → Bool
all_in [] expected = true
all_in (key ∷ rest) expected = includes key expected && all_in rest expected

abbrev pub max_safe_integer : ℕ
max_safe_integer = 0x1f_ffff_ffff_ffff
