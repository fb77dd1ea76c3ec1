-- ===== src/ArchiveA/Machine/Votes.antt =====
-- The votes that `applyTendermintInput` of implementations/archive-a/src/core.ts emits over a trace.
use co_net_dle.Common.{
  ℕ, ◌+◌, ◌*◌, ◌≤◌, ◌<◌, ◌≡◌, ◌≢◌, Option, none, some, List, [], ◌∷◌, ◌++◌, arith,
}
use co_net_dle.ArchiveA.Machine.{
  TendermintState, ConsensusStep, ConsensusMode, Proposal, TendermintInput, TendermintOutput,
  Action, apply_tendermint_input, run,
}

-- The place of a step in its round, and of a state in the order of rounds and steps.
abbrev pub rank : ConsensusStep → ℕ
rank ConsensusStep.propose = 0
rank ConsensusStep.prevote = 1
rank ConsensusStep.precommit = 2
rank ConsensusStep.committed = 3

abbrev pub place : TendermintState → ℕ
place s = s.round * 4 + rank s.step

-- A vote or commit, by its round and its action's place.
abbrev vote_place : ℕ → Action → Option ℕ
vote_place r Action.prevote = some (r * 4 + 1)
vote_place r Action.precommit = some (r * 4 + 2)
vote_place r Action.commit = some (r * 4 + 3)
vote_place r _ = none

-- The votes among the outputs of a step that was made in round `r`.
unfoldable pub votes : ℕ → List TendermintOutput → List ℕ
votes r [] = []
votes r (o ∷ os) = elim (vote_place r o.action) [ none ↦ votes r os | some p ↦ p ∷ votes r os ]

-- The votes of a trace, each as `round * 4` and 1 for a prevote, 2 for a precommit, 3 for a commit.
unfoldable pub trace_votes : TendermintState → List TendermintInput → List ℕ
unfolding votes apply_tendermint_input
trace_votes s [] = []
trace_votes s (i ∷ is) =
    let t = apply_tendermint_input s i in
    let rest = trace_votes t.state is in votes s.round t.outputs ++ rest

-- Each entry is above the one before, and all are above the bound.
abbrev pub IsRising : ℕ → List ℕ → Type 0
IsRising b [] = Unit {0}
IsRising b (x ∷ xs) = (b < x) × IsRising x xs

IsRising-weaken : (a b : ℕ) (xs : List ℕ) → a ≤ b → IsRising b xs → IsRising a xs
IsRising-weaken a b [] le h = h
IsRising-weaken a b (x ∷ xs) le h = (omega (arith, le, h.0), h.1)

-- What one step emits: no vote, or one at the new state's place; the place does not fall.
step_votes :
    (s : TendermintState) (i : TendermintInput) (xs : List ℕ)
    → let t = apply_tendermint_input s i in
      IsRising (place t.state) xs → IsRising (place s) (votes s.round t.outputs ++ xs)
unfolding votes apply_tendermint_input
step_votes s (TendermintInput.proposal p) xs h =
    ground (arith, IsRising-weaken (place s) (place s + 1) xs)
step_votes s (TendermintInput.prevote_qc v q) xs h =
    ground (arith, IsRising-weaken (place s) (place s + 1) xs)
step_votes s TendermintInput.prevote_timeout xs h =
    ground (arith, IsRising-weaken (place s) (place s + 1) xs)
step_votes s (TendermintInput.precommit_qc v c) xs h =
    ground (arith, IsRising-weaken (place s) ((s.round + 1) * 4) xs)
step_votes s (TendermintInput.precommit_timeout tc) xs h =
    ground (arith, IsRising-weaken (place s) ((s.round + 1) * 4) xs)
step_votes s (TendermintInput.reject_cert r after) xs h = ground arith

-- Over every trace of inputs, from any state, the votes come in rising order of rounds and steps: no
-- round gets two prevotes, two precommits or two commits, and no vote is for a step already passed.
pub votes_rise :
    (s : TendermintState) (is : List TendermintInput) → IsRising (place s) (trace_votes s is)
unfolding trace_votes
votes_rise s [] = tt
votes_rise s (i ∷ is) =
    let t = (apply_tendermint_input s i).state in
    step_votes s i (trace_votes t is) (votes_rise t is)

-- The inputs of a second commit: a timeout, which is not tested for its step, and a round for `w`.
abbrev pub commit_again : Proposal → ℕ → ℕ → ℕ → List TendermintInput
commit_again p w q c =
    TendermintInput.precommit_timeout 0
    ∷ TendermintInput.proposal p
    ∷ TendermintInput.prevote_qc w q
    ∷ TendermintInput.precommit_qc w c
    ∷ []

-- A voting state that has committed leaves the step COMMITTED on a precommit timeout, and a round for
-- any value `w`, with references that are not zero, then replaces the reference of its commit.
pub timeout_reopens_commit :
    (s : TendermintState) (p : Proposal) (w q c : ℕ)
    → s.mode ≡ ConsensusMode.voting
    → s.step ≡ ConsensusStep.committed
    → w ≢ 0
    → q ≢ 0
    → c ≢ 0
    → let t = run s (commit_again p w q c) in
      (t.step ≡ ConsensusStep.committed)
      × (t.height ≡ s.height)
      × (t.locked_value ≡ w)
      × (t.committed_ac_ref ≡ c)
unfolding run apply_tendermint_input
timeout_reopens_commit s p w q c m k nw nq nc = ground arith
