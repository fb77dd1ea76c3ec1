-- ===== src/Runtime/Bft/Quorum/Signers.antt =====
-- `uniqueActiveSigners` of runtime/src/archive/bft/quorum.ts, and quorums as lists of members.
use co_net_dle.Common.{
  ℕ, ◌+◌, ◌≤◌, ◌<◌, ◌≡◌, refl, ◌∙◌, ◌≢◌, ◌⊎◌, inl, inr, true, false, ◌||◌, List, [], ◌∷◌, ◌++◌,
  arith, ◌==◌, if◌then◌else◌, ==_iff, Bool-cases, length, length-append, nat_eq, includes, Distinct,
}
use co_net_dle.Runtime.Bft.Quorum.{ArchiveVote, collect, insert_sorted, sort, unique_active_signers}

-- Every entry of the first list is in the second.
abbrev pub Subset : List ℕ → List ℕ → Type 0
Subset [] ys = Unit
Subset (x ∷ xs) ys = (includes x ys ≡ true) × Subset xs ys

erase : ℕ → List ℕ → List ℕ
erase x [] = []
erase x (y ∷ ys) = if y == x then ys else y ∷ erase x ys

length-erase : (x : ℕ) (ys : List ℕ) → includes x ys ≡ true → length (erase x ys) + 1 ≡ length ys
unfolding erase
length-erase x [] h = cc
length-erase x (y ∷ ys) h = ground (arith, length-erase x ys)

includes-erase :
    (x z : ℕ) (ys : List ℕ) → z ≢ x → includes z ys ≡ true → includes z (erase x ys) ≡ true
unfolding erase
includes-erase x z [] n h = cc
includes-erase x z (y ∷ ys) n h = ground (arith, includes-erase x z ys n)

Subset-erase :
    (x : ℕ) (xs ys : List ℕ) → includes x xs ≡ false → Subset xs ys → Subset xs (erase x ys)
Subset-erase x [] ys n s = tt
Subset-erase x (z ∷ zs) ys n s = ground (arith, includes-erase x z ys, Subset-erase x zs ys)

-- Distinct entries of a list are at most as many as the list has.
Subset-length : (xs ys : List ℕ) → Distinct xs → Subset xs ys → length xs ≤ length ys
Subset-length [] ys d s = omega arith
Subset-length (x ∷ xs) ys d s =
    omega (
      arith,
      length-erase x ys s.0,
      Subset-length xs (erase x ys) d.1 (Subset-erase x xs ys d.0 s.1),
    )

Subset-append : (xs ys zs : List ℕ) → Subset xs zs → Subset ys zs → Subset (xs ++ ys) zs
Subset-append [] ys zs h k = k
Subset-append (x ∷ xs) ys zs h k = (h.0, Subset-append xs ys zs h.1 k)

includes-append :
    (x : ℕ) (xs ys : List ℕ)
    → includes x xs ≡ false
    → includes x ys ≡ false
    → includes x (xs ++ ys) ≡ false
includes-append x [] ys h k = k
includes-append x (z ∷ zs) ys h k = ground (arith, includes-append x zs ys)

-- Two lists of distinct entries share one, or together have distinct entries.
share_or_apart :
    (xs ys : List ℕ)
    → Distinct xs
    → Distinct ys
    → ((d : ℕ) × (includes d xs ≡ true) × (includes d ys ≡ true)) ⊎ Distinct (xs ++ ys)
share_or_apart [] ys d e = inr e
share_or_apart (x ∷ xs) ys d e = elim (Bool-cases (includes x ys)) [
  | inl both ↦ inl (x, ground arith, both)
  | inr not_both ↦ elim (share_or_apart xs ys d.1 e) [
    | inl (z, h, k) ↦ inl (z, ground arith, k)
    | inr apart ↦ inr (includes-append x xs ys d.0 not_both, apart)
  ]
]

-- Two lists of distinct members of a group that are together longer than the group share a member.
pub share_member :
    (xs ys group : List ℕ)
    → Distinct xs
    → Distinct ys
    → Subset xs group
    → Subset ys group
    → length group < length xs + length ys
    → (d : ℕ) × (includes d xs ≡ true) × (includes d ys ≡ true)
share_member xs ys group dx dy sx sy h = elim (share_or_apart xs ys dx dy) [
  | inl found ↦ found
  | inr apart ↦ absurd (
      omega (
        arith,
        length-append xs ys,
        Subset-length (xs ++ ys) group apart (Subset-append xs ys group sx sy),
      ))
]

-- The signers, before they are sorted.
collect-Subset :
    (active seen : List ℕ) (vs : List ArchiveVote) → Subset (collect active seen vs) active
unfolding collect
collect-Subset active seen [] = tt
collect-Subset active seen (v ∷ vs) =
    ground (arith, collect-Subset active seen vs, collect-Subset active (v.domain_id ∷ seen) vs)

collect-unseen :
    (active seen : List ℕ) (vs : List ArchiveVote) (d : ℕ)
    → includes d seen ≡ true
    → includes d (collect active seen vs) ≡ false
unfolding collect
collect-unseen active seen [] d h = refl
collect-unseen active seen (v ∷ vs) d h =
    ground (arith, collect-unseen active seen vs d, collect-unseen active (v.domain_id ∷ seen) vs d)

collect-Distinct :
    (active seen : List ℕ) (vs : List ArchiveVote) → Distinct (collect active seen vs)
unfolding collect
collect-Distinct active seen [] = tt
collect-Distinct active seen (v ∷ vs) = ground (
  arith,
  collect-Distinct active seen vs,
  collect-Distinct active (v.domain_id ∷ seen) vs,
  collect-unseen active (v.domain_id ∷ seen) vs v.domain_id,
)

-- Sorting keeps the entries.
includes-insert :
    (d x : ℕ) (xs : List ℕ) → includes d (insert_sorted x xs) ≡ (x == d || includes d xs)
unfolding insert_sorted
includes-insert d x [] = refl
includes-insert d x (y ∷ ys) = ground (arith, includes-insert d x ys)

pub includes-sort : (d : ℕ) (xs : List ℕ) → includes d (sort xs) ≡ includes d xs
unfolding sort
includes-sort d [] = refl
includes-sort d (x ∷ xs) = rw (includes-insert d x (sort xs), includes-sort d xs)

length-insert : (x : ℕ) (xs : List ℕ) → length (insert_sorted x xs) ≡ length xs + 1
unfolding insert_sorted
length-insert x [] = omega arith
length-insert x (y ∷ ys) = ground (arith, length-insert x ys)

pub length-sort : (xs : List ℕ) → length (sort xs) ≡ length xs
unfolding sort
length-sort [] = refl
length-sort (x ∷ xs) = omega (arith, length-insert x (sort xs), length-sort xs)

Subset-includes :
    (d : ℕ) (xs ys : List ℕ) → Subset xs ys → includes d xs ≡ true → includes d ys ≡ true
Subset-includes d [] ys s h = cc
Subset-includes d (x ∷ xs) ys s h = ground (arith, ==_iff x d, Subset-includes d xs ys s.1)

insert-Subset :
    (x : ℕ) (xs ys : List ℕ) → includes x ys ≡ true → Subset xs ys → Subset (insert_sorted x xs) ys
unfolding insert_sorted
insert-Subset x [] ys h s = (h, tt)
insert-Subset x (z ∷ zs) ys h s = ground (arith, insert-Subset x zs ys h)

sort-Subset : (xs ys : List ℕ) → Subset xs ys → Subset (sort xs) ys
unfolding sort
sort-Subset [] ys s = tt
sort-Subset (x ∷ xs) ys s = insert-Subset x (sort xs) ys s.0 (sort-Subset xs ys s.1)

insert-Distinct :
    (x : ℕ) (xs : List ℕ) → includes x xs ≡ false → Distinct xs → Distinct (insert_sorted x xs)
unfolding insert_sorted
insert-Distinct x [] h d = (refl, tt)
insert-Distinct x (z ∷ zs) h d =
    ground (arith, insert-Distinct x zs, includes-insert z x zs, ==_iff x z, ==_iff z x)

sort-Distinct : (xs : List ℕ) → Distinct xs → Distinct (sort xs)
unfolding sort
sort-Distinct [] d = tt
sort-Distinct (x ∷ xs) d =
    insert-Distinct x (sort xs) (includes-sort x xs ∙ d.0) (sort-Distinct xs d.1)

-- The signers are active and distinct, and are the domains that the loop collects.
pub signers-Subset :
    (vs : List ArchiveVote) (active : List ℕ) → Subset (unique_active_signers vs active) active
unfolding unique_active_signers
signers-Subset vs active = sort-Subset (collect active [] vs) active (collect-Subset active [] vs)

pub signers-Distinct :
    (vs : List ArchiveVote) (active : List ℕ) → Distinct (unique_active_signers vs active)
unfolding unique_active_signers
signers-Distinct vs active = sort-Distinct (collect active [] vs) (collect-Distinct active [] vs)

pub includes-signers :
    (d : ℕ) (vs : List ArchiveVote) (active : List ℕ)
    → includes d (unique_active_signers vs active) ≡ includes d (collect active [] vs)
unfolding unique_active_signers
includes-signers d vs active = includes-sort d (collect active [] vs)
