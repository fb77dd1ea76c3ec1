-- ===== src/Runtime/Bft/Round.antt =====
-- runtime/src/archive/bft/tendermint.ts: the state of one round, and its three inputs.
use co_net_dle.Common.{
  ℕ, ◌≤◌, ◌≡◌, ◌≢◌, ◌⊎◌, Bool, true, false, not, ◌&&◌, ◌||◌, Option, none, some, List, [], ◌∷◌,
  arith, ltb, ◌==◌, if◌then◌else◌,
}

-- A hash is a number that names the text, and the zero hash is 0.
abbrev pub Hex : Type 0
Hex = ℕ

abbrev pub zero32 : Hex
zero32 = 0

abbrev pub none_round : ℕ
none_round = 0xffff_ffff

pub data ArchiveRoundStep : Type 0 where
  propose prevote precommit committed : ArchiveRoundStep

pub record ArchiveRoundState : Type 0 where
  pub height : ℕ
  pub round : ℕ
  pub step : ArchiveRoundStep
  pub locked_value : Hex
  pub locked_round : ℕ
  pub valid_value : Hex
  pub valid_round : ℕ
  pub valid_prevote_qc_ref : Hex
  pub committed_ac_ref : Hex

pub record RoundProposal : Type 0 where
  pub value : Hex
  pub available : Bool
  pub valid_round : ℕ
  pub valid_prevote_qc_ref : Hex

pub data ArchiveRoundInput : Type 0 where
  proposal : RoundProposal → ArchiveRoundInput
  prevote_qc precommit_qc : Hex → Hex → ArchiveRoundInput

pub data RoundAction : Type 0 where
  prevote precommit commit : RoundAction

pub record ArchiveRoundOutput : Type 0 where
  pub action : RoundAction
  pub value : Hex
  pub reference : Hex

pub data RoundError : Type 0 where
  err_lock_conflict err_invalid_certificate_kind err_invalid_certificate_reference : RoundError

pub record ArchiveRoundTransition : Type 0 where
  pub state : ArchiveRoundState
  pub outputs : List ArchiveRoundOutput
  pub error : Option RoundError

unfoldable pub create_empty_round_state : ℕ → ℕ → ArchiveRoundState
create_empty_round_state height round = record {
  height = height;
  round = round;
  step = ArchiveRoundStep.propose;
  locked_value = zero32;
  locked_round = none_round;
  valid_value = zero32;
  valid_round = none_round;
  valid_prevote_qc_ref = zero32;
  committed_ac_ref = zero32;
}

abbrev pub emit : ArchiveRoundState → RoundAction → Hex → Hex → ArchiveRoundTransition
emit s action value reference = record {
  state = s;
  outputs = record { action = action; value = value; reference = reference } ∷ [];
  error = none;
}

abbrev pub fail : ArchiveRoundState → RoundError → ArchiveRoundTransition
fail s e = record { state = s; outputs = []; error = some e }

abbrev is_propose : ArchiveRoundStep → Bool
is_propose ArchiveRoundStep.propose = true
is_propose _ = false

abbrev is_prevote : ArchiveRoundStep → Bool
is_prevote ArchiveRoundStep.prevote = true
is_prevote _ = false

abbrev is_precommit : ArchiveRoundStep → Bool
is_precommit ArchiveRoundStep.precommit = true
is_precommit _ = false

-- The value of the prevote: the proposal's, where it is available and the lock allows it.
unfoldable pub proposal_vote : RoundProposal → ArchiveRoundState → Hex
proposal_vote p s =
    if p.available
      && not (p.value == zero32)
      && (s.locked_round == none_round
          || s.locked_value == p.value
          || (not (p.valid_round == none_round)
              && not (s.locked_round == none_round)
              && ltb s.locked_round p.valid_round
              && not (p.valid_prevote_qc_ref == zero32)))
    then p.value
    else zero32

unfoldable pub apply_archive_round_input :
    ArchiveRoundState → ArchiveRoundInput → ArchiveRoundTransition
unfolding proposal_vote
apply_archive_round_input s (proposal p) =
    if not (is_propose s.step)
    then fail s err_lock_conflict
    else emit (record s { step = ArchiveRoundStep.prevote }) RoundAction.prevote (proposal_vote p s)
        zero32
apply_archive_round_input s (prevote_qc v q) =
    let t = record s { step = ArchiveRoundStep.precommit } in
    if not (is_prevote s.step)
    then fail s err_invalid_certificate_kind
    else if v == zero32
    then emit t RoundAction.precommit zero32 zero32
    else if q == zero32
    then fail t err_invalid_certificate_reference
    else emit
        (record t {
          valid_value = v;
          valid_round = s.round;
          valid_prevote_qc_ref = q;
          locked_value = v;
          locked_round = s.round;
        })
        RoundAction.precommit v q
apply_archive_round_input s (precommit_qc v c) =
    if not (is_precommit s.step)
    then fail s err_invalid_certificate_kind
    else if v == zero32 || c == zero32
    then fail s err_invalid_certificate_reference
    else emit (record s { step = ArchiveRoundStep.committed; committed_ac_ref = c })
        RoundAction.commit v c

-- The state and all outputs of a sequence of inputs.
unfoldable pub run : ArchiveRoundState → List ArchiveRoundInput → ArchiveRoundState
run s [] = s
run s (i ∷ is) = run (apply_archive_round_input s i).state is

-- The place of a step.
abbrev pub rank : ArchiveRoundStep → ℕ
rank ArchiveRoundStep.propose = 0
rank ArchiveRoundStep.prevote = 1
rank ArchiveRoundStep.precommit = 2
rank ArchiveRoundStep.committed = 3

-- What a state keeps: a lock is on a value with a reference, in the current round, and only past the
-- prevote; a commit has a reference; without a lock the valid value is empty too.
pub record IsSound (s : ArchiveRoundState) : Type 0 where
  pub same_value : s.locked_value ≡ s.valid_value
  pub same_round : s.locked_round ≡ s.valid_round
  pub lock_cases :
      ((s.locked_round ≡ none_round) × (s.locked_value ≡ 0) × (s.valid_prevote_qc_ref ≡ 0))
      ⊎ ((s.locked_round ≡ s.round)
          × (s.locked_value ≢ 0)
          × (s.valid_prevote_qc_ref ≢ 0)
          × (2 ≤ rank s.step))
  pub commit_cases :
      ((rank s.step ≡ 3) × (s.committed_ac_ref ≢ 0))
      ⊎ ((rank s.step ≤ 2) × (s.committed_ac_ref ≡ 0))

-- From one state to a later one: same height and round, and the step does not go back.
pub record IsLater (s t : ArchiveRoundState) : Type 0 where
  pub same_height : t.height ≡ s.height
  pub same_round : t.round ≡ s.round
  pub step_rises : rank s.step ≤ rank t.step
  pub commit_stays : (rank s.step ≤ 2) ⊎ (t.committed_ac_ref ≡ s.committed_ac_ref)

empty-IsSound : (h r : ℕ) → IsSound (create_empty_round_state h r)
unfolding create_empty_round_state
empty-IsSound h r = ground arith

apply-IsSound :
    (s : ArchiveRoundState) (i : ArchiveRoundInput)
    → IsSound s
    → IsSound (apply_archive_round_input s i).state
unfolding apply_archive_round_input
apply-IsSound s (proposal p) h = ground arith
apply-IsSound s (prevote_qc v q) h = ground arith
apply-IsSound s (precommit_qc v c) h = ground arith

apply-IsLater :
    (s : ArchiveRoundState) (i : ArchiveRoundInput)
    → IsLater s (apply_archive_round_input s i).state
unfolding apply_archive_round_input
apply-IsLater s (proposal p) = ground arith
apply-IsLater s (prevote_qc v q) = ground arith
apply-IsLater s (precommit_qc v c) = ground arith

run_safe :
    (s : ArchiveRoundState) (is : List ArchiveRoundInput)
    → IsSound s
    → IsSound (run s is) × IsLater s (run s is)
unfolding run
run_safe s [] h = (h, ground arith)
run_safe s (i ∷ is) h =
    let t = (apply_archive_round_input s i).state in
    let (sound, later) = run_safe t is (apply-IsSound s i h) in
    (sound, ground (arith, apply-IsLater s i))

-- In every sequence of inputs from the empty state the state is sound: a lock names a value and a
-- certificate and stands in the current round past the prevote, and a commit has its certificate's
-- reference. Between two points of it the height and round stay, the step does not go back, and what
-- is committed stays.
pub round_safe :
    (height round : ℕ) (is js : List ArchiveRoundInput)
    → let s = run (create_empty_round_state height round) is in IsSound s × IsLater s (run s js)
round_safe height round is js =
    let sound =
      (run_safe (create_empty_round_state height round) is (empty-IsSound height round)).0 in
    (sound, (run_safe (run (create_empty_round_state height round) is) js sound).1)
