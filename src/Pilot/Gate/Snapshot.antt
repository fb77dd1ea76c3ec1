-- ===== src/Pilot/Gate/Snapshot.antt =====
-- `parsePilotGateSnapshot` and `fromSnapshot` of pilot/src/gate.ts.
use Prim.Native.Nat.{max}
use co_net_dle.Common.{
  ℕ, Bool, not, Option, none, some, is_none, Result, ok, err, ◌>>=◌, ◌>>◌, throw_if, ltb,
  if◌then◌else◌, Text,
}
use co_net_dle.Pilot.Gate.{
  PilotCounters, PilotGateSnapshot, PilotQualificationGate, Dates, GateError, bad_object,
  bad_schema, bad_counters, bad_integer, bad_time,
}

-- What a field of an object from outside may hold: null, a text, a whole number that is not negative, or
-- any other value, a missing one too.
pub data RawValue : Type 0 where
  null other : RawValue
  text : Text → RawValue
  integer : ℕ → RawValue

pub record RawCounters : Type 0 where
  pub rotations : RawValue
  pub rehomes : RawValue
  pub takeovers : RawValue

-- An object by the fields that are read; the counters are none where they are no object.
pub record RawSnapshot : Type 0 where
  pub schema_known : Bool
  pub epoch : RawValue
  pub warmup_started_at : RawValue
  pub pilot_started_at : RawValue
  pub last_safety_failure_at : RawValue
  pub reset_count : RawValue
  pub counters : Option RawCounters

unfoldable pub required_integer : RawValue → ℕ → Result GateError ℕ
required_integer (integer n) minimum = if ltb n minimum then err bad_integer else ok n
required_integer _ minimum = err bad_integer

unfoldable pub required_iso_time : Dates → RawValue → Result GateError Text
required_iso_time dates (text t) = if is_none (dates.parse t) then err bad_time else ok t
required_iso_time dates _ = err bad_time

-- `x === null ? null : requiredIsoTime(x)`.
unfoldable pub time_or_null : Dates → RawValue → Result GateError (Option Text)
unfolding required_iso_time
time_or_null dates null = ok none
time_or_null dates (text t) = do time ← required_iso_time dates (text t); ok (some time)
time_or_null dates _ = err bad_time

unfoldable pub parse_counters : Option RawCounters → Result GateError PilotCounters
unfolding required_integer
parse_counters none = err bad_counters
parse_counters (some raw) = do
  rotations ← required_integer raw.rotations 0
  rehomes ← required_integer raw.rehomes 0
  takeovers ← required_integer raw.takeovers 0
  ok (record { rotations = rotations; rehomes = rehomes; takeovers = takeovers })

-- The argument is none where it is no object.
unfoldable pub parse_pilot_gate_snapshot :
    Dates → Option RawSnapshot → Result GateError PilotGateSnapshot
unfolding parse_counters required_integer required_iso_time time_or_null
parse_pilot_gate_snapshot dates none = err bad_object
parse_pilot_gate_snapshot dates (some raw) = do
  throw_if (not raw.schema_known) bad_schema
  counters ← parse_counters raw.counters
  epoch ← required_integer raw.epoch 1
  warmup ← required_iso_time dates raw.warmup_started_at
  pilot ← time_or_null dates raw.pilot_started_at
  failure ← time_or_null dates raw.last_safety_failure_at
  resets ← required_integer raw.reset_count 0
  ok (record {
    epoch = epoch;
    warmup_started_at = warmup;
    pilot_started_at = pilot;
    last_safety_failure_at = failure;
    reset_count = resets;
    counters = counters;
  })

-- `Date.parse` of a text that the parser let through, so that has a time.
abbrev pub time_of_text : Dates → Text → ℕ
time_of_text dates t = elim (dates.parse t) [ none ↦ 0 | some at ↦ at ]

abbrev pub time_or_none : Dates → Option Text → Option ℕ
time_or_none dates none = none
time_or_none dates (some t) = some (time_of_text dates t)

-- `Math.max(...observed)`, over the times that the snapshot has.
abbrev pub max_with : Option ℕ → ℕ → ℕ
max_with none m = m
max_with (some t) m = max m t

unfoldable pub from_snapshot : Dates → Option RawSnapshot → Result GateError PilotQualificationGate
unfolding parse_pilot_gate_snapshot
from_snapshot dates raw = do
  s ← parse_pilot_gate_snapshot dates raw
  let warmup = time_of_text dates s.warmup_started_at
  let pilot = time_or_none dates s.pilot_started_at
  let failure = time_or_none dates s.last_safety_failure_at
  ok (record {
    epoch = s.epoch;
    warmup_started_at = warmup;
    pilot_started_at = pilot;
    last_safety_failure_at = failure;
    last_observed_at = max_with failure (max_with pilot warmup);
    reset_count = s.reset_count;
    counters = s.counters;
  })
