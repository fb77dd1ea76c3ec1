-- ===== src/ArchiveB/Lifecycle/Machine/Invariant.antt =====
-- The members through an exit, in `applyLifecycleInput` of implementations/archive-b/src/lifecycle.ts:
-- the invariant and the switch.
use co_net_dle.Common.{
  ℕ, zero, suc, ◌+◌, ◌≤◌, ◌≡◌, refl, sym, ap, ◌∙◌, ◌≢◌, ◌⊎◌, inl, inr, true, false, some, List, [],
  ◌∷◌, arith, ok, ◌==◌, length, set, drop, nat_eq, includes, index_of, Distinct, Distinct-set,
  size-of_Distinct, length-set, ==_iff, includes-index_of, includes-set_ne, Bool-cases,
}
use mathlib.Core.Path.{subst}
use mathlib.Core.Bool.{false≢true}
use co_net_dle.ArchiveB.Lifecycle.Machine.{
  Phase, standby_syncing, handover_ready, membership_switched, LifecycleMachineState,
  activate_switch, apply_lifecycle_input,
}

-- The phases in which a member is leaving, and those in which its replacement is chosen.
abbrev pub LeavingIn : Phase → List ℕ → ℕ → Type 0
LeavingIn Phase.active members m = Unit
LeavingIn membership_switched members m = includes m members ≡ false
LeavingIn _ members m = includes m members ≡ true

abbrev pub FirstIs : List ℕ → ℕ → Type 0
FirstIs [] m = ⊥
FirstIs (x ∷ xs) m = x ≡ m

abbrev pub PromotedIn : Phase → List ℕ → List ℕ → ℕ → Type 0
PromotedIn standby_syncing members standby m = FirstIs standby m
PromotedIn handover_ready members standby m = FirstIs standby m
PromotedIn membership_switched members standby m = includes m members ≡ true
PromotedIn _ members standby m = Unit

-- No standby is an active member.
abbrev pub Apart : List ℕ → List ℕ → Type 0
Apart [] members = Unit
Apart (x ∷ xs) members = (includes x members ≡ false) × (x ≢ 0) × Apart xs members

-- Five members and at most two standbys, seven different ones at most; the leaving member is active
-- until the switch and is not after it, and the promoted one is the first standby and then active.
pub record IsSound (s : LifecycleMachineState) : Type 0 where
  pub five_members : length s.active ≡ 5
  pub few_standbys : length s.standby ≤ 2
  pub members_distinct : Distinct s.active
  pub standbys_distinct : Distinct s.standby
  pub standbys_apart : Apart s.standby s.active
  pub leaving : LeavingIn s.phase s.active s.exiting
  pub promotion : PromotedIn s.phase s.active s.standby s.promoted

-- Facts about a list in which the entry at the first place of `x` is written over by `v`.
includes-set_self :
    (x v : ℕ) (xs : List ℕ) (i : ℕ) → index_of x xs ≡ some i → includes v (set xs i v) ≡ true
includes-set_self x v [] i h = cc
includes-set_self x v (y ∷ ys) zero h = ground arith
includes-set_self x v (y ∷ ys) (suc i) h = ground (arith, includes-set_self x v ys i)

includes-set_old :
    (x v : ℕ) (xs : List ℕ) (i : ℕ)
    → Distinct xs
    → x ≢ v
    → index_of x xs ≡ some i
    → includes x (set xs i v) ≡ false
includes-set_old x v [] i d n h = cc
includes-set_old x v (y ∷ ys) zero d n h = ground arith
includes-set_old x v (y ∷ ys) (suc i) d n h = ground (arith, includes-set_old x v ys i d.1 n)

includes-set_other :
    (x v y : ℕ) (xs : List ℕ) (i : ℕ)
    → index_of x xs ≡ some i
    → y ≢ x
    → includes y xs ≡ true
    → includes y (set xs i v) ≡ true
includes-set_other x v y [] i h n m = cc
includes-set_other x v y (z ∷ zs) zero h n m = ground arith
includes-set_other x v y (z ∷ zs) (suc i) h n m = ground (arith, includes-set_other x v y zs i)

-- Every entry of the one list but `x` is in the other.
abbrev pub KeptBut : ℕ → List ℕ → List ℕ → Type 0
KeptBut x [] ys = Unit
KeptBut x (y ∷ xs) ys = ((y ≡ x) ⊎ (includes y ys ≡ true)) × KeptBut x xs ys

KeptBut-of :
    (x : ℕ) (xs ys : List ℕ)
    → ((y : ℕ) → y ≢ x → includes y xs ≡ true → includes y ys ≡ true)
    → KeptBut x xs ys
KeptBut-of x [] ys f = tt
KeptBut-of x (z ∷ xs) ys f = (
  elim (Bool-cases (z == x)) [
    | inl same ↦ inl ((==_iff z x).0 same)
    | inr other ↦
        inr (f z (λ e. ground (arith, (==_iff z x).1 e)) (ground (arith, (==_iff z z).1 refl)))
  ],
  KeptBut-of x xs ys (λ y n m. f y n (ground arith)),
)

Apart-set : (ss xs : List ℕ) (i v : ℕ) → Apart ss xs → includes v ss ≡ false → Apart ss (set xs i v)
Apart-set [] xs i v a n = tt
Apart-set (s ∷ ss) xs i v a n = ground (arith, Apart-set ss xs i v a.2, includes-set_ne s xs i v)

-- The state after the switch at place `i` of the leaving member.
abbrev pub switched : LifecycleMachineState → ℕ → LifecycleMachineState
switched s i = record s {
  phase = membership_switched;
  membership_epoch = s.membership_epoch + 1;
  key_epoch = s.key_epoch + 1;
  active = set s.active i s.promoted;
  standby = drop 1 s.standby;
}

-- A sound state that is ready for the handover, taken apart.
pub record IsReady (s : LifecycleMachineState) (i : ℕ) (rest : List ℕ) : Type 0 where
  pub at_handover : s.phase ≡ handover_ready
  pub place : index_of s.exiting s.active ≡ some i
  pub standbys : s.standby ≡ s.promoted ∷ rest
  pub new_member : includes s.promoted s.active ≡ false
  pub new_nonzero : s.promoted ≢ 0
  pub not_again : includes s.promoted rest ≡ false
  pub rest_apart : Apart rest s.active
  pub rest_distinct : Distinct rest
  pub different : s.exiting ≢ s.promoted

first_standby :
    (standby members : List ℕ) (m : ℕ)
    → FirstIs standby m
    → Distinct standby
    → Apart standby members
    → (rest : List ℕ) × (standby ≡ m ∷ rest)
      × (includes m members ≡ false)
      × (m ≢ 0)
      × (includes m rest ≡ false)
      × Apart rest members
      × Distinct rest
first_standby [] members m f d a = absurd f
first_standby (x ∷ xs) members m f d a =
    (xs, ground arith, ground arith, ground arith, ground arith, a.2, d.1)

pub handover-IsReady :
    (s : LifecycleMachineState)
    → IsSound s
    → s.phase ≡ handover_ready
    → (i : ℕ) × (rest : List ℕ) × IsReady s i rest
handover-IsReady s h e =
    let leaving : includes s.exiting s.active ≡ true =
      subst (λ p. LeavingIn p s.active s.exiting) e h.leaving in
    let (i, at) = includes-index_of s.exiting s.active leaving in
    let (rest, split, new, pos, again, apart, distinct) =
      first_standby s.standby s.active s.promoted
        (subst (λ p. PromotedIn p s.active s.standby s.promoted) e h.promotion) h.standbys_distinct
        h.standbys_apart in
    (
      i,
      rest,
      record {
        at_handover = e;
        place = at;
        standbys = split;
        new_member = new;
        new_nonzero = pos;
        not_again = again;
        rest_apart = apart;
        rest_distinct = distinct;
        different = λ q. false≢true (sym new ∙ ap (λ m. includes m s.active) (sym q) ∙ leaving);
      },
    )

pub switch_accepted :
    (s : LifecycleMachineState) (i : ℕ) (rest : List ℕ)
    → IsSound s
    → IsReady s i rest
    → apply_lifecycle_input s activate_switch ≡ ok (switched s i)
unfolding apply_lifecycle_input
switch_accepted s i rest h r = ground (
  arith,
  r.at_handover,
  r.place,
  size-of_Distinct (set s.active i s.promoted)
      (Distinct-set s.active i s.promoted h.members_distinct r.new_member),
  length-set s.active i s.promoted,
)

pub switched-IsSound :
    (s : LifecycleMachineState) (i : ℕ) (rest : List ℕ)
    → IsSound s
    → IsReady s i rest
    → IsSound (switched s i)
switched-IsSound s i rest h r = record {
  five_members = length-set s.active i s.promoted ∙ h.five_members;
  few_standbys =
      rw r.standbys (omega (arith, h.few_standbys, ap (λ (l : List ℕ). length l) r.standbys));
  members_distinct = Distinct-set s.active i s.promoted h.members_distinct r.new_member;
  standbys_distinct = rw r.standbys r.rest_distinct;
  standbys_apart = rw r.standbys (Apart-set rest s.active i s.promoted r.rest_apart r.not_again);
  leaving = includes-set_old s.exiting s.promoted s.active i h.members_distinct r.different r.place;
  promotion = includes-set_self s.exiting s.promoted s.active i r.place;
}

-- What the switch of a sound state does: it is accepted, the leaving member is out, the promoted
-- standby is in and off the standby list, every other member stays, and both epochs go up by one.
pub switch_replaces :
    (s : LifecycleMachineState)
    → IsSound s
    → s.phase ≡ handover_ready
    → (t : LifecycleMachineState) × (apply_lifecycle_input s activate_switch ≡ ok t)
      × (includes s.exiting t.active ≡ false)
      × (includes s.promoted t.active ≡ true)
      × (s.standby ≡ s.promoted ∷ t.standby)
      × KeptBut s.exiting s.active t.active
      × (t.membership_epoch ≡ s.membership_epoch + 1)
      × (t.key_epoch ≡ s.key_epoch + 1)
switch_replaces s h e =
    let (i, rest, r) = handover-IsReady s h e in
    let t = switched-IsSound s i rest h r in
    (
      switched s i,
      switch_accepted s i rest h r,
      t.leaving,
      t.promotion,
      rw r.standbys refl,
      KeptBut-of s.exiting s.active (set s.active i s.promoted)
          (λ y n m. includes-set_other s.exiting s.promoted y s.active i r.place n m),
      refl,
      refl,
    )
