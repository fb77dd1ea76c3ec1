-- ===== src/ArchiveB/Certificates/Roster.antt =====
-- The order of the roster in `selectCoordinatorDetails` of
-- implementations/archive-b/src/certificates.ts.
use co_net_dle.Common.{
  ◌<◌, ◌≡◌, ◌⊎◌, inl, inr, true, false, List, [], ◌∷◌, arith, Bytes, Bool-cases,
}
use mathlib.Core.List.{Perm}
use mathlib.Core.List.Perm as Perm
use co_net_dle.ArchiveB.Certificates.{bytes_le, insert_member, sort_members}

-- The order of the first bytes that differ; a beginning comes before the whole.
abbrev pub Before : Bytes → Bytes → Type 0
Before [] t = Unit
Before (b ∷ s) [] = ⊥
Before (b ∷ s) (c ∷ t) = (b < c) ⊎ ((b ≡ c) × Before s t)

-- Each member comes before the next.
abbrev pub Rising : List Bytes → Type 0
Rising [] = Unit
Rising (a ∷ []) = Unit
Rising (a ∷ b ∷ rest) = Before a b × Rising (b ∷ rest)

le-Before : (s t : Bytes) → bytes_le s t ≡ true → Before s t
le-Before [] t h = tt
le-Before (b ∷ s) [] h = ground arith
le-Before (b ∷ s) (c ∷ t) h = ground (arith, le-Before s t)

not_le-Before : (s t : Bytes) → bytes_le s t ≡ false → Before t s
not_le-Before [] t h = ground arith
not_le-Before (b ∷ s) [] h = tt
not_le-Before (b ∷ s) (c ∷ t) h = ground (arith, not_le-Before s t)

insert_after :
    (a b : Bytes) (rest : List Bytes)
    → Before b a
    → Rising (b ∷ rest)
    → Rising (insert_member a rest)
    → Rising (b ∷ insert_member a rest)
unfolding insert_member
insert_after a b [] h o k = (h, tt)
insert_after a b (c ∷ rest) h o k = elim (Bool-cases (bytes_le a c)) [
  | inl first ↦ rw first (h, rw first at k)
  | inr later ↦ rw later (o.0, rw later at k)
]

tail-Rising : (b : Bytes) (rest : List Bytes) → Rising (b ∷ rest) → Rising rest
tail-Rising b [] o = tt
tail-Rising b (c ∷ rest) o = o.1

insert-Rising : (a : Bytes) (bs : List Bytes) → Rising bs → Rising (insert_member a bs)
unfolding insert_member
insert-Rising a [] o = tt
insert-Rising a (b ∷ rest) o = elim (Bool-cases (bytes_le a b)) [
  | inl first ↦ rw first (le-Before a b first, o)
  | inr later ↦ rw later (
      insert_after a b rest (not_le-Before a b later) o
        (insert-Rising a rest (tail-Rising b rest o)))
]

pub sort-Rising : (bs : List Bytes) → Rising (sort_members bs)
unfolding sort_members
sort-Rising [] = tt
sort-Rising (b ∷ bs) = insert-Rising b (sort_members bs) (sort-Rising bs)

insert-Perm : (a : Bytes) (bs : List Bytes) → Perm (insert_member a bs) (a ∷ bs)
unfolding insert_member
insert-Perm a [] = Perm.refl (a ∷ [])
insert-Perm a (b ∷ bs) = elim (Bool-cases (bytes_le a b)) [
  | inl first ↦ rw first (Perm.refl (a ∷ b ∷ bs))
  | inr later ↦ rw later (Perm.trans (Perm.cons b (insert-Perm a bs)) (Perm.swap a b bs))
]

pub sort-Perm : (bs : List Bytes) → Perm (sort_members bs) bs
unfolding sort_members
sort-Perm [] = Perm.nil
sort-Perm (b ∷ bs) = Perm.trans (insert-Perm b (sort_members bs)) (Perm.cons b (sort-Perm bs))
