-- ===== src/ArchiveB/Membership.antt =====
-- The membership checks at the end of implementations/archive-b/src/consensus.ts.
use co_net_dle.Common.{
  ℕ, ◌≤◌, ◌<◌, ◌≡◌, refl, ◌↔◌, ◌⊎◌, true, not, ◌&&◌, List, [], ◌∷◌, arith, Result, ok, ◌>>◌,
  throw_if, leb, ◌==◌, if◌then◌else◌, nat_eq, includes, set_size, Bool-cases, ==_iff, inl, inr,
}
use mathlib.Core.Path.{subst}
use co_net_dle.ArchiveB.Types.{
  Hex, ErrorCode, err_membership_not_active, err_key_epoch_mismatch, err_mixed_membership_root,
  err_ambiguous_l1_membership_checkpoint, err_membership_root_mismatch, MembershipView,
}

abbrev pub Check : Type 0
Check = Result ErrorCode (Unit {0})

unfoldable pub assert_active_membership : ℕ → Hex → ℕ → MembershipView → Check
assert_active_membership height root epoch view =
    let activates_new = leb view.activation_height height in
    do
      throw_if (activates_new && not view.l1_switch_final) err_membership_not_active
      let expected_root =
          if activates_new then view.new_membership_root else view.old_membership_root
      let expected_epoch = if activates_new then view.new_key_epoch else view.old_key_epoch
      throw_if (not (root == expected_root)) err_membership_not_active
      throw_if (not (epoch == expected_epoch)) err_key_epoch_mismatch

unfoldable pub assert_single_membership_root : List Hex → Check
assert_single_membership_root roots = throw_if (not (set_size roots == 1)) err_mixed_membership_root

unfoldable pub assert_unambiguous_membership_checkpoint : List Hex → Check
assert_unambiguous_membership_checkpoint claimed =
    throw_if (not (set_size claimed == 1)) err_ambiguous_l1_membership_checkpoint

unfoldable pub assert_proposal_vote_membership_match : Hex → Hex → Check
assert_proposal_vote_membership_match p v = throw_if (not (p == v)) err_membership_root_mismatch

-- All entries are `r`.
abbrev pub AllAre : Hex → List Hex → Type 0
AllAre r [] = Unit
AllAre r (x ∷ xs) = (x ≡ r) × AllAre r xs

-- The list has an entry, and all its entries are one.
abbrev pub OneRoot : List Hex → Type 0
OneRoot [] = ⊥
OneRoot (x ∷ xs) = AllAre x xs

size_pos : (x : ℕ) (xs : List ℕ) → 0 < set_size (x ∷ xs)
size_pos x [] = omega arith
size_pos x (y ∷ ys) = ground (arith, size_pos y ys)

AllAre-includes : (x y : ℕ) (ys : List ℕ) → AllAre y ys → includes x ys ≡ true → x ≡ y
AllAre-includes x y [] h i = cc
AllAre-includes x y (z ∷ zs) h i = ground (arith, AllAre-includes x y zs h.1)

AllAre-of_size : (x : ℕ) (xs : List ℕ) → set_size (x ∷ xs) ≡ 1 → AllAre x xs
AllAre-of_size x [] h = tt
AllAre-of_size x (y ∷ ys) h = elim (Bool-cases (y == x)) [
  | inl same ↦
      let e : y ≡ x = (==_iff y x).0 same in
      let one : set_size (y ∷ ys) ≡ 1 = rw same at h in
      (e, subst (λ z. AllAre z ys) e (AllAre-of_size y ys one))
  | inr other ↦ ground (arith, size_pos y ys, AllAre-of_size y ys, AllAre-includes x y ys)
]

size-of_AllAre : (x : ℕ) (xs : List ℕ) → AllAre x xs → set_size (x ∷ xs) ≡ 1
size-of_AllAre x [] h = refl
size-of_AllAre x (y ∷ ys) h = rw ((==_iff y x).1 h.0) (rw h.0 (size-of_AllAre x ys h.1))

-- Both checks on a list of membership roots pass exactly when the list has an entry and all its
-- entries are one root.
pub OneRoot-iff :
    (roots : List Hex)
    → ((assert_single_membership_root roots ≡ ok tt) ↔ OneRoot roots)
      × ((assert_unambiguous_membership_checkpoint roots ≡ ok tt) ↔ OneRoot roots)
unfolding assert_single_membership_root assert_unambiguous_membership_checkpoint
OneRoot-iff [] = ((λ h. ground arith, λ h. ground arith), (λ h. ground arith, λ h. ground arith))
OneRoot-iff (x ∷ xs) = (
  (λ h. ground (arith, AllAre-of_size x xs), λ h. ground (arith, size-of_AllAre x xs h)),
  (λ h. ground (arith, AllAre-of_size x xs), λ h. ground (arith, size-of_AllAre x xs h)),
)

-- Signing at a height is allowed under exactly one root and key epoch: below the activation height the
-- old ones, and from it on the new ones, once the switch is final on L1.
pub active_membership_iff :
    (h root epoch : ℕ) (v : MembershipView)
    → (assert_active_membership h root epoch v ≡ ok tt) ↔ (
        ((h < v.activation_height) × (root ≡ v.old_membership_root) × (epoch ≡ v.old_key_epoch))
        ⊎ ((v.activation_height ≤ h)
            × (v.l1_switch_final ≡ true)
            × (root ≡ v.new_membership_root)
            × (epoch ≡ v.new_key_epoch)))
unfolding assert_active_membership
active_membership_iff h root epoch v = (λ e. ground arith, λ e. ground arith)
