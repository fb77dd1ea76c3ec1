-- ===== src/ArchiveB/Ssz/Keys.antt =====
-- `assertExactKeys` of implementations/archive-b/src/ssz.ts, and sets of names.
use co_net_dle.Common.{
  ◌+◌, ◌≤◌, ◌≡◌, refl, ◌⊎◌, inl, inr, ◌↔◌, true, false, List, [], ◌∷◌, arith, ok, if◌then◌else◌,
  Bool-cases, length, string_eq, includes, set_size, Distinct, size-of_Distinct, beq_sym,
  FixedRecord, keys, all_in,
}
use Prim.Native.String.{String}
use co_net_dle.ArchiveB.Ssz.{Field, names, assert_exact_keys}

-- The name stands in the list.
abbrev pub Among : String → List String → Type 0
Among k [] = ⊥
Among k (x ∷ xs) = (x ≡ k) ⊎ Among k xs

-- The object has a key exactly where the schema has a field of that name.
abbrev pub SameKeys : FixedRecord → List Field → Type 0
SameKeys value schema = (k : String) → Among k (keys value) ↔ Among k (names schema)

includes-Among : (k : String) (xs : List String) → (includes k xs ≡ true) ↔ Among k xs
includes-Among k [] = (λ h. cc, λ h. absurd h)
includes-Among k (x ∷ xs) = ground (arith, includes-Among k xs, string_eq.beq_iff x k)

erase : String → List String → List String
erase x [] = []
erase x (y ∷ ys) = if string_eq.beq y x then ys else y ∷ erase x ys

length-erase :
    (x : String) (ys : List String) → includes x ys ≡ true → length (erase x ys) + 1 ≡ length ys
unfolding erase
length-erase x [] h = cc
length-erase x (y ∷ ys) h = ground (arith, length-erase x ys)

includes-erase :
    (x z : String) (ys : List String)
    → string_eq.beq x z ≡ false
    → includes z ys ≡ true
    → includes z (erase x ys) ≡ true
unfolding erase
includes-erase x z [] n h = cc
includes-erase x z (y ∷ ys) n h = elim (Bool-cases (string_eq.beq y x)) [
  | inl same ↦
      let apart : string_eq.beq y z ≡ false = rw ((string_eq.beq_iff y x).0 same) n in
      rw same (rw apart at h)
  | inr other ↦ rw other (ground (arith, includes-erase x z ys n))
]

all_in-erase :
    (x : String) (xs ys : List String)
    → includes x xs ≡ false
    → all_in xs ys ≡ true
    → all_in xs (erase x ys) ≡ true
all_in-erase x [] ys n s = refl
all_in-erase x (z ∷ zs) ys n s =
    ground (arith, includes-erase x z ys, all_in-erase x zs ys, beq_sym z x)

all_in-length : (xs ys : List String) → Distinct xs → all_in xs ys ≡ true → length xs ≤ length ys
all_in-length [] ys d s = omega arith
all_in-length (x ∷ xs) ys d s =
    let here : includes x ys ≡ true = ground arith in
    let rest : all_in xs ys ≡ true = ground arith in
    omega (
      arith,
      length-erase x ys here,
      all_in-length xs (erase x ys) d.1 (all_in-erase x xs ys d.0 rest),
    )

-- Distinct names that are all among no more names are all of them.
all_covered :
    (xs ys : List String)
    → Distinct xs
    → all_in xs ys ≡ true
    → length ys ≤ length xs
    → (k : String) → includes k ys ≡ true
    → includes k xs ≡ true
all_covered [] [] d s l k h = h
all_covered [] (y ∷ ys) d s l k h = ground arith
all_covered (x ∷ xs) ys d s l k h = elim (Bool-cases (string_eq.beq x k)) [
  | inl here ↦ rw here refl
  | inr other ↦
      let in_ys : includes x ys ≡ true = ground arith in
      let rest : all_in xs ys ≡ true = ground arith in
      let size = length-erase x ys in_ys in
      rw other (
        all_covered xs (erase x ys) d.1 (all_in-erase x xs ys d.0 rest) (omega (arith, size)) k
          (includes-erase x k ys other h))
]

all_in-includes :
    (xs ys : List String)
    → all_in xs ys ≡ true
    → (k : String) → includes k xs ≡ true
    → includes k ys ≡ true
all_in-includes [] ys s k h = cc
all_in-includes (x ∷ xs) ys s k h = elim (Bool-cases (string_eq.beq x k)) [
  | inl here ↦ ground (arith, string_eq.beq_iff x k)
  | inr other ↦ all_in-includes xs ys (ground arith) k (rw other at h)
]

includes_head : (x : String) (xs : List String) → includes x (x ∷ xs) ≡ true
includes_head x xs = rw ((string_eq.beq_iff x x).1 refl) refl

includes_tail :
    (x k : String) (xs : List String) → includes k xs ≡ true → includes k (x ∷ xs) ≡ true
includes_tail x k xs h = ground arith

all_in_intro :
    (xs ys : List String)
    → ((k : String) → includes k xs ≡ true → includes k ys ≡ true)
    → all_in xs ys ≡ true
all_in_intro [] ys h = refl
all_in_intro (x ∷ xs) ys h =
    rw (h x (includes_head x xs), all_in_intro xs ys (λ k m. h k (includes_tail x k xs m))) refl

keys_tested :
    (value : FixedRecord) (schema : List Field)
    → (assert_exact_keys value schema ≡ ok tt) ↔ (
        (length (keys value) ≡ set_size (names schema))
        × (all_in (keys value) (names schema) ≡ true))
unfolding assert_exact_keys
keys_tested value schema = ground arith

-- The test of the keys passes exactly where object and schema have the same names, the object each
-- once, as objects have, and the schema too.
pub assert_exact_keys_iff :
    (value : FixedRecord) (schema : List Field)
    → Distinct (keys value)
    → Distinct (names schema)
    → (assert_exact_keys value schema ≡ ok tt) ↔ SameKeys value schema
assert_exact_keys_iff value schema dv ds =
    let tested = keys_tested value schema in
    let size = size-of_Distinct (names schema) ds in
    let ks = keys value in
    let ns = names schema in
    (
      λ h k.
          let (same, within) = tested.0 h in
          (
            λ m.
                (includes-Among k ns).0
                  (all_in-includes ks ns within k ((includes-Among k ks).1 m)),
            λ m. (includes-Among k ks).0 (
                all_covered ks ns dv within (omega (arith, same, size)) k
                  ((includes-Among k ns).1 m)),
          ),
      λ h.
          let into =
            all_in_intro ks ns
              (λ k m. (includes-Among k ns).1 ((h k).0 ((includes-Among k ks).0 m))) in
          let back =
            all_in_intro ns ks
              (λ k m. (includes-Among k ks).1 ((h k).1 ((includes-Among k ns).0 m))) in
          tested.1
            (omega (arith, size, all_in-length ks ns dv into, all_in-length ns ks ds back), into),
    )
