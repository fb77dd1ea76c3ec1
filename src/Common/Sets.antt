-- ===== src/Common/Sets.antt =====
-- Values that `===` compares, and the set of a list as `new Set(xs)` sees it.
use Prim.Native.String.{String}
use Prim.Native.Nat.{ℕ, zero, suc, ◌≤◌}
use mathlib.Core.Path.{◌≡◌, refl}
use mathlib.Core.Logic.{◌↔◌, inl, inr}
use mathlib.Core.Bool.{Bool, true, false, ◌||◌, ◌&&◌}
use mathlib.Core.List.{List, [], ◌∷◌}
use mathlib.Core.Option.{Option, none, some}
use native.Mathlib.Omega.{arith}
use text.Mathlib.TextEquality.{eq_iff as same_string_iff}
use text.Mathlib.Text.{◌==◌ as same_string}
use co_net_dle.Common.Tests.{◌==◌, ==_iff, Bool-cases, if◌then◌else◌}
use co_net_dle.Common.Lists.{length, set}

pub record Eq {ℓ} (A : Type ℓ) : Type ℓ where
  pub beq : A → A → Bool
  pub beq_iff : (a b : A) → (beq a b ≡ true) ↔ (a ≡ b)

instance abbrev pub nat_eq : Eq ℕ
nat_eq = record { beq = ◌==◌; beq_iff = ==_iff }

-- A text as its code units.
abbrev pub Text : Type 0
Text = List ℕ

abbrev pub text_beq : Text → Text → Bool
text_beq [] [] = true
text_beq (a ∷ s) (b ∷ t) = a == b && text_beq s t
text_beq _ _ = false

pub text_beq_iff : (s t : Text) → (text_beq s t ≡ true) ↔ (s ≡ t)
text_beq_iff [] [] = (λ _. refl, λ _. refl)
text_beq_iff [] (b ∷ t) = (λ h. cc, λ h. cc)
text_beq_iff (a ∷ s) [] = (λ h. cc, λ h. cc)
text_beq_iff (a ∷ s) (b ∷ t) = ground (arith, text_beq_iff s t)

instance abbrev pub text_eq : Eq Text
text_eq = record { beq = text_beq; beq_iff = text_beq_iff }

-- The names of an object's fields.
instance abbrev pub string_eq : Eq String
string_eq = record { beq_iff = same_string_iff; beq = same_string }

module _ {ℓ} {A : Type ℓ} ⦃e : Eq A⦄ where
  -- `xs.includes(a)`.
  abbrev pub includes : A → List A → Bool
  includes a [] = false
  includes a (x ∷ xs) = e.beq x a || includes a xs

  -- `new Set(xs).size`.
  abbrev pub set_size : List A → ℕ
  set_size [] = 0
  set_size (x ∷ xs) = if includes x xs then set_size xs else suc (set_size xs)

  -- No entry stands twice in the list.
  abbrev pub Distinct : List A → Type 0
  Distinct [] = Unit
  Distinct (x ∷ xs) = (includes x xs ≡ false) × Distinct xs

  -- `xs.indexOf(a)`, with `none` for -1.
  abbrev pub index_of : A → List A → Option ℕ
  index_of a [] = none
  index_of a (x ∷ xs) =
      if e.beq x a then some 0 else elim (index_of a xs) [ none ↦ none | some i ↦ some (suc i) ]

  pub set_size-le : (xs : List A) → set_size xs ≤ length xs
  set_size-le [] = omega arith
  set_size-le (x ∷ xs) = ground (arith, set_size-le xs)

  pub Distinct-of_size : (xs : List A) → set_size xs ≡ length xs → Distinct xs
  Distinct-of_size [] h = tt
  Distinct-of_size (x ∷ xs) h = ground (arith, set_size-le xs, Distinct-of_size xs)

  pub size-of_Distinct : (xs : List A) → Distinct xs → set_size xs ≡ length xs
  size-of_Distinct [] h = refl
  size-of_Distinct (x ∷ xs) h = ground (arith, size-of_Distinct xs h.1)

  pub includes-set_ne :
      (a : A) (xs : List A) (i : ℕ) (v : A)
      → includes a xs ≡ false
      → e.beq v a ≡ false
      → includes a (set xs i v) ≡ false
  includes-set_ne a [] i v h n = h
  includes-set_ne a (x ∷ xs) zero v h n = ground arith
  includes-set_ne a (x ∷ xs) (suc i) v h n = ground (arith, includes-set_ne a xs i v)

  pub beq_sym : (a b : A) → e.beq a b ≡ false → e.beq b a ≡ false
  beq_sym a b h = ground (arith, e.beq_iff a b, e.beq_iff b a)

  pub Distinct-set :
      (xs : List A) (i : ℕ) (v : A) → Distinct xs → includes v xs ≡ false → Distinct (set xs i v)
  Distinct-set [] i v d n = tt
  Distinct-set (x ∷ xs) zero v d n = ground arith
  Distinct-set (x ∷ xs) (suc i) v d n =
      ground (arith, Distinct-set xs i v d.1, includes-set_ne x xs i v d.0, beq_sym x v)

  pub includes-index_of :
      (a : A) (xs : List A) → includes a xs ≡ true → (i : ℕ) × (index_of a xs ≡ some i)
  includes-index_of a [] h = cc
  includes-index_of a (x ∷ xs) h = elim (Bool-cases (e.beq x a)) [
    | inl here ↦ (0, rw here)
    | inr past ↦ let (i, at) = includes-index_of a xs (ground arith) in (suc i, rw (past, at))
  ]

pub text_beq_refl : (s : Text) → text_beq s s ≡ true
text_beq_refl s = (text_beq_iff s s).1 refl
