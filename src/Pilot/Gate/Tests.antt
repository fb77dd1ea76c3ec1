-- ===== src/Pilot/Gate/Tests.antt =====
-- The gate's properties at concrete runs.
use co_net_dle.Common.{◌≡◌, ◌≤◌, refl, none, some, leb, if◌then◌else◌, List, [], ◌∷◌, arith, ok}
use co_net_dle.Pilot.Gate.{
  PilotQualificationGate, PilotGateSnapshot, Dates, zero_counters, rotations, rehomes, takeovers,
  new, snapshot, start_pilot_clock, evaluate, record_counter, record_safety_failure, Call, start,
  failed, counted, step, run,
}
use co_net_dle.Pilot.Gate.Clock.{IsSound, IsEarned, qualified-IsEarned}
use co_net_dle.Pilot.Gate.Restore.{restored, raw_of, last_time, ReadsBack, restore_snapshot}
use co_net_dle.Pilot.Gate.Snapshot.{from_snapshot}

-- A time as a text of one unit.
abbrev dates : Dates
dates = record {
  to_iso = λ t. if leb t last_time then some (t ∷ []) else none;
  parse = λ s. elim s [ [] ↦ none | t ∷ rest ↦ some t ];
}

dates-ReadsBack : ReadsBack dates
dates-ReadsBack t h = (t ∷ [], ground arith, refl)

-- A failure after an hour, then a whole warmup, the counters, and thirty days.
abbrev calls : List Call
calls =
    failed 3600000
    ∷ start 262800000
    ∷ counted rotations 100 262800000
    ∷ counted rehomes 30 262800001
    ∷ counted takeovers 100 262800002
    ∷ []

qualified-IsEarned_example :
    (0 ≤ (run dates calls (new 0)).warmup_started_at)
    × IsEarned (run dates calls (new 0)) 2854800000
unfolding run step new start_pilot_clock evaluate record_counter record_safety_failure snapshot
qualified-IsEarned_example = qualified-IsEarned dates 0 calls 2854800000 refl refl

abbrev gate : PilotQualificationGate
gate = record {
  epoch = 1;
  warmup_started_at = 0;
  pilot_started_at = none;
  last_safety_failure_at = none;
  last_observed_at = 50;
  reset_count = 0;
  counters = zero_counters;
}

restore_snapshot_example :
    (s : PilotGateSnapshot) × (snapshot dates gate ≡ ok s)
    × (from_snapshot dates (some (raw_of s)) ≡ ok (restored gate))
    × ((restored gate).last_observed_at ≤ gate.last_observed_at)
    × IsSound (restored gate)
restore_snapshot_example = restore_snapshot dates dates-ReadsBack gate (ground arith) (omega arith)
