-- ===== src/ArchiveB/Lifecycle/Phases.antt =====
-- `advanceArchiveLifecycle`: the eight phases of an archive that leaves, and what each step needs.
use co_net_dle.Common.{
  ℕ, suc, ◌+◌, ◌≤◌, ◌<◌, ◌≡◌, refl, ◌≢◌, ◌↔◌, ◌⊎◌, inl, inr, Bool, true, false, Option, none, some,
  List, [], ◌∷◌, arith, Result, ok, err, zero, replicate, ap, ◌>>◌,
}
use native.Mathlib.Decide.{dec_le}

pub data ArchiveLifecycleState : Type 0 where
  active exit_requested draining standby_syncing handover_ready : ArchiveLifecycleState
  membership_switched unbonding exited : ArchiveLifecycleState

pub data LifecycleError : Type 0 where
  err_lifecycle_terminal err_exit_nonce err_drain_incomplete err_handover_data_incomplete :
      LifecycleError
  err_standby_not_synced err_standby_not_ready err_membership_certificate : LifecycleError
  err_membership_not_active err_unbonding_liability : LifecycleError

-- Each field may be left out, as `none`.
pub record LifecycleContext : Type 0 where
  pub unique_exit_nonce : Option Bool
  pub assigned_rounds_drained : Option Bool
  pub latest_ac_and_da_preserved : Option Bool
  pub standby_zero_synced : Option Bool
  pub both_standbys_ready : Option Bool
  pub membership_certificate_valid : Option Bool
  pub l1_membership_switch_final : Option Bool
  pub liabilities_expired : Option Bool

-- The table `NEXT`.
unfoldable pub next : ArchiveLifecycleState → Option ArchiveLifecycleState
next active = some exit_requested
next exit_requested = some draining
next draining = some standby_syncing
next standby_syncing = some handover_ready
next handover_ready = some membership_switched
next membership_switched = some unbonding
next unbonding = some exited
next exited = none

-- `requireCondition`: a condition that is absent or false throws.
unfoldable pub require_condition : Option Bool → LifecycleError → Result LifecycleError (Unit {0})
require_condition none e = err e
require_condition (some false) e = err e
require_condition (some true) e = ok tt

-- The `switch` over the current phase.
unfoldable pub requirements :
    ArchiveLifecycleState → LifecycleContext → Result LifecycleError (Unit {0})
unfolding require_condition
requirements active c = require_condition c.unique_exit_nonce err_exit_nonce
requirements exit_requested c = ok tt
requirements draining c = do
  require_condition c.assigned_rounds_drained err_drain_incomplete
  require_condition c.latest_ac_and_da_preserved err_handover_data_incomplete
requirements standby_syncing c = do
  require_condition c.standby_zero_synced err_standby_not_synced
  require_condition c.both_standbys_ready err_standby_not_ready
requirements handover_ready c = do
  require_condition c.membership_certificate_valid err_membership_certificate
  require_condition c.l1_membership_switch_final err_membership_not_active
requirements membership_switched c = ok tt
requirements unbonding c = require_condition c.liabilities_expired err_unbonding_liability
requirements exited c = err err_lifecycle_terminal

unfoldable pub advance_archive_lifecycle :
    ArchiveLifecycleState → LifecycleContext → Result LifecycleError ArchiveLifecycleState
unfolding next requirements
advance_archive_lifecycle current c = elim (next current) [
  | none ↦ err err_lifecycle_terminal
  | some n ↦ requirements current c >> ok n
]

-- A caller that offers one context after another, and stays where it is on an error.
abbrev settle :
    Result LifecycleError ArchiveLifecycleState → ArchiveLifecycleState → ArchiveLifecycleState
settle (ok n) s = n
settle (err _) s = s

unfoldable pub attempts : ArchiveLifecycleState → List LifecycleContext → ArchiveLifecycleState
attempts s [] = s
attempts s (c ∷ cs) = attempts (settle (advance_archive_lifecycle s c) s) cs

-- The place of a phase in the order of the table.
abbrev pub rank : ArchiveLifecycleState → ℕ
rank active = 0
rank exit_requested = 1
rank draining = 2
rank standby_syncing = 3
rank handover_ready = 4
rank membership_switched = 5
rank unbonding = 6
rank exited = 7

-- What the step out of a phase needs of its context.
abbrev pub Needs : ArchiveLifecycleState → LifecycleContext → Type 0
Needs active c = c.unique_exit_nonce ≡ some true
Needs exit_requested c = Unit
Needs draining c =
    (c.assigned_rounds_drained ≡ some true) × (c.latest_ac_and_da_preserved ≡ some true)
Needs standby_syncing c = (c.standby_zero_synced ≡ some true) × (c.both_standbys_ready ≡ some true)
Needs handover_ready c =
    (c.membership_certificate_valid ≡ some true) × (c.l1_membership_switch_final ≡ some true)
Needs membership_switched c = Unit
Needs unbonding c = c.liabilities_expired ≡ some true
Needs exited c = ⊥

-- A step succeeds exactly when the context has what the phase needs, and then goes to the phase whose
-- place is the next one.
pub advance_iff :
    (s : ArchiveLifecycleState) (c : LifecycleContext) (n : ArchiveLifecycleState)
    → (advance_archive_lifecycle s c ≡ ok n) ↔ (Needs s c × (rank n ≡ rank s + 1))
unfolding advance_archive_lifecycle
advance_iff active c n = (λ h. ground arith, λ h. ground arith)
advance_iff _ c n = (λ h. ground arith, λ h. ground arith)

-- Some context of the list has what the phase needs.
abbrev pub Offered : ArchiveLifecycleState → List LifecycleContext → Type 0
Offered s [] = ⊥
Offered s (c ∷ cs) = Needs s c ⊎ Offered s cs

rank-injective : (s t : ArchiveLifecycleState) → rank s ≡ rank t → s ≡ t
rank-injective s t h = ground arith

-- One attempt stays, or goes one place on with what the phase needs.
attempt_moves :
    (s : ArchiveLifecycleState) (c : LifecycleContext)
    → let t = settle (advance_archive_lifecycle s c) s in
      (t ≡ s) ⊎ (Needs s c × (rank t ≡ rank s + 1))
unfolding advance_archive_lifecycle
attempt_moves active c = ground arith
attempt_moves _ c = ground arith

-- An archive that tries with a list of contexts and leaves a phase behind was offered, in one of them,
-- all that this phase needs: no phase is skipped, whatever the order of the contexts.
passed-Offered :
    (s p : ArchiveLifecycleState) (cs : List LifecycleContext)
    → rank s ≤ rank p
    → rank p < rank (attempts s cs)
    → Offered p cs
unfolding attempts
passed-Offered s p [] h k = absurd (omega arith)
passed-Offered s p (c ∷ cs) h k =
    let t = settle (advance_archive_lifecycle s c) s in
    elim (attempt_moves s c) [
      | inl stays ↦ inr (passed-Offered t p cs (rw stays h) k)
      | inr (needs, moves) ↦ elim (dec_le (rank t) (rank p)) [
        | yes on ↦ inr (passed-Offered t p cs on k)
        | no off ↦ inl (rw (rank-injective p s (omega arith)) needs)
      ]
    ]

abbrev met : Option Bool
met = some true

-- A context that meets every condition.
abbrev pub all_met : LifecycleContext
all_met = record {
  unique_exit_nonce = met;
  assigned_rounds_drained = met;
  latest_ac_and_da_preserved = met;
  standby_zero_synced = met;
  both_standbys_ready = met;
  membership_certificate_valid = met;
  l1_membership_switch_final = met;
  liabilities_expired = met;
}

advance_all_met :
    (s : ArchiveLifecycleState)
    → s ≢ exited
    → (t : ArchiveLifecycleState) × (advance_archive_lifecycle s all_met ≡ ok t)
      × (rank t ≡ rank s + 1)
unfolding advance_archive_lifecycle
advance_all_met exited h = absurd (h refl)
advance_all_met active h = (exit_requested, refl, refl)
advance_all_met exit_requested h = (draining, refl, refl)
advance_all_met draining h = (standby_syncing, refl, refl)
advance_all_met standby_syncing h = (handover_ready, refl, refl)
advance_all_met handover_ready h = (membership_switched, refl, refl)
advance_all_met membership_switched h = (unbonding, refl, refl)
advance_all_met unbonding h = (exited, refl, refl)

-- From every phase the way out is open: as many contexts that meet every condition as places are left
-- lead to the last phase.
pub attempts_reach_exited :
    (n : ℕ) (s : ArchiveLifecycleState) → rank s + n ≡ 7 → attempts s (replicate n all_met) ≡ exited
unfolding attempts
attempts_reach_exited zero s h = rank-injective s exited (omega arith)
attempts_reach_exited (suc n) s h =
    let (t, e, r) = advance_all_met s (λ q. absurd (omega (arith, ap rank q))) in
    rw (e, attempts) (attempts_reach_exited n t (omega arith))
