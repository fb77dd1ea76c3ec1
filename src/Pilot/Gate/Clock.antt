-- ===== src/Pilot/Gate/Clock.antt =====
-- The clocks and counters of pilot/src/gate.ts over sequences of calls.
use co_net_dle.Common.{ℕ, ◌+◌, ◌≤◌, ◌<◌, ◌≡◌, true, Option, none, some, List, [], ◌∷◌, arith, ok}
use co_net_dle.Pilot.Gate.{
  Dates, PilotQualificationGate, PilotCounters, rotations, rehomes, takeovers, GateEvaluation, new,
  evaluate, warmup_window_ms, pilot_window_ms, Call, start, evaluated, failed, counted, step, run,
  zero_counters,
}

-- The pilot clock starts after a whole warmup and not after the last observation.
abbrev pub PilotTimed : Option ℕ → ℕ → ℕ → Type 0
PilotTimed none warm seen = Unit
PilotTimed (some t) warm seen = (warm + warmup_window_ms ≤ t) × (t ≤ seen)

-- The warmup starts with the last failure.
abbrev pub FailureTimed : Option ℕ → ℕ → Type 0
FailureTimed none warm = Unit
FailureTimed (some t) warm = warm ≡ t

-- Nothing is counted before the pilot clock starts.
abbrev pub CountedIn : Option ℕ → PilotCounters → Type 0
CountedIn none c = c ≡ zero_counters
CountedIn (some t) c = Unit

pub record IsSound (g : PilotQualificationGate) : Type 0 where
  pub warmup_seen : g.warmup_started_at ≤ g.last_observed_at
  pub pilot_timed : PilotTimed g.pilot_started_at g.warmup_started_at g.last_observed_at
  pub failure_timed : FailureTimed g.last_safety_failure_at g.warmup_started_at
  pub epochs_counted : g.epoch ≡ g.reset_count + 1
  pub counted_in_pilot : CountedIn g.pilot_started_at g.counters

new-IsSound : (started : ℕ) → IsSound (new started)
unfolding new
new-IsSound started = ground arith

step-IsSound :
    (dates : Dates) (c : Call) (g : PilotQualificationGate) → IsSound g → IsSound (step dates c g)
unfolding step
step-IsSound dates (start at) g h = ground arith
step-IsSound dates (evaluated at) g h = ground arith
step-IsSound dates (failed at) g h = ground arith
step-IsSound dates (counted rotations n at) g h = ground arith
step-IsSound dates (counted rehomes n at) g h = ground arith
step-IsSound dates (counted takeovers n at) g h = ground arith

pub run-IsSound :
    (dates : Dates) (cs : List Call) (g : PilotQualificationGate)
    → IsSound g
    → IsSound (run dates cs g)
unfolding run
run-IsSound dates [] g h = h
run-IsSound dates (c ∷ cs) g h = run-IsSound dates cs (step dates c g) (step-IsSound dates c g h)

abbrev pub time_of : Call → ℕ
time_of (start at) = at
time_of (evaluated at) = at
time_of (failed at) = at
time_of (counted kind n at) = at

-- What an evaluation that qualifies says of the gate before it.
pub record IsEarned (g : PilotQualificationGate) (at : ℕ) : Type 0 where
  pub waited : g.warmup_started_at + warmup_window_ms + pilot_window_ms ≤ at
  pub failure_past : FailureTimed g.last_safety_failure_at g.warmup_started_at
  pub enough_rotations : 100 ≤ g.counters.rotations
  pub enough_rehomes : 30 ≤ g.counters.rehomes
  pub enough_takeovers : 100 ≤ g.counters.takeovers

earned :
    (g : PilotQualificationGate) (at : ℕ) {e : GateEvaluation} {h : PilotQualificationGate}
    → IsSound g
    → evaluate at g ≡ (ok e, h)
    → e.qualified ≡ true
    → IsEarned g at
unfolding evaluate
earned g at s q t = ground arith

step_warms_later :
    (dates : Dates) (c : Call) (g : PilotQualificationGate)
    → IsSound g
    → g.warmup_started_at ≤ (step dates c g).warmup_started_at
unfolding step
step_warms_later dates (start at) g h = ground arith
step_warms_later dates (evaluated at) g h = ground arith
step_warms_later dates (failed at) g h = ground arith
step_warms_later dates (counted kind n at) g h = ground arith

run_warms_later :
    (dates : Dates) (cs : List Call) (g : PilotQualificationGate)
    → IsSound g
    → g.warmup_started_at ≤ (run dates cs g).warmup_started_at
unfolding run
run_warms_later dates [] g h = omega arith
run_warms_later dates (c ∷ cs) g h = omega (
  arith,
  step_warms_later dates c g h,
  run_warms_later dates cs (step dates c g) (step-IsSound dates c g h),
)

-- Over every sequence of calls on a new gate, an evaluation that says `qualified` comes at least 72
-- hours and 30 days after the warmup began, which was not before the start and, after a safety
-- failure, was at the last one; and the three counters have reached their numbers.
pub qualified-IsEarned :
    (dates : Dates) (started : ℕ) (cs : List Call) (at : ℕ) {e : GateEvaluation}
    {h : PilotQualificationGate}
    → evaluate at (run dates cs (new started)) ≡ (ok e, h)
    → e.qualified ≡ true
    → (started ≤ (run dates cs (new started)).warmup_started_at)
      × IsEarned (run dates cs (new started)) at
qualified-IsEarned dates started cs at q t = (
  unfold new in run_warms_later dates cs (new started) (new-IsSound started),
  earned (run dates cs (new started)) at (run-IsSound dates cs (new started) (new-IsSound started))
      q t,
)

-- A call at a time before the last observed one changes nothing, whichever method it calls.
pub earlier_call_unchanged :
    (dates : Dates) (c : Call) (g : PilotQualificationGate)
    → time_of c < g.last_observed_at
    → step dates c g ≡ g
unfolding step
earlier_call_unchanged dates (start at) g h = ground arith
earlier_call_unchanged dates (evaluated at) g h = ground arith
earlier_call_unchanged dates (failed at) g h = ground arith
earlier_call_unchanged dates (counted kind n at) g h = ground arith
