-- ===== src/Pilot/Gate.antt =====
-- pilot/src/gate.ts: the class `PilotQualificationGate`, which says when a pilot run qualifies.
pub mod Clock
pub mod Restore
pub mod Snapshot
mod Tests
use co_net_dle.Common.{
  ℕ, suc, ◌+◌, ◌-◌, ◌*◌, Bool, true, false, not, ◌&&◌, ◌||◌, Option, none, some, List, [], ◌∷◌,
  Result, ok, err, ◌>>=◌, Text, ltb, leb, ◌==◌, if◌then◌else◌, is_none,
}

-- Times are milliseconds since 1970, so no negative ones, and finite.
abbrev pub warmup_window_ms : ℕ
warmup_window_ms = 72 * 60 * 60 * 1000

abbrev pub pilot_window_ms : ℕ
pilot_window_ms = 30 * 24 * 60 * 60 * 1000

pub record PilotCounters : Type 0 where
  pub rotations : ℕ
  pub rehomes : ℕ
  pub takeovers : ℕ

pub data CounterKind : Type 0 where
  rotations rehomes takeovers : CounterKind

abbrev pub required_counters : PilotCounters
required_counters = record { rotations = 100; rehomes = 30; takeovers = 100 }

pub record GateEvaluation : Type 0 where
  pub warmup_complete : Bool
  pub pilot_running : Bool
  pub continuous_window_complete : Bool
  pub counters_complete : Bool
  pub qualified : Bool
  pub remaining : PilotCounters

pub record PilotQualificationGate : Type 0 where
  pub epoch : ℕ
  pub warmup_started_at : ℕ
  pub pilot_started_at : Option ℕ
  pub last_safety_failure_at : Option ℕ
  pub last_observed_at : ℕ
  pub reset_count : ℕ
  pub counters : PilotCounters

-- `PilotGateSnapshotV1`, whose times are texts.
pub record PilotGateSnapshot : Type 0 where
  pub epoch : ℕ
  pub warmup_started_at : Text
  pub pilot_started_at : Option Text
  pub last_safety_failure_at : Option Text
  pub reset_count : ℕ
  pub counters : PilotCounters

-- The calls of `Date`: `new Date(t).toISOString()`, none where it throws, and `Date.parse`, none where
-- it gives no finite number.
pub record Dates : Type 0 where
  pub to_iso : ℕ → Option Text
  pub parse : Text → Option ℕ

pub data GateError : Type 0 where
  not_monotonic warmup_not_complete bad_amount counter_before_warmup : GateError
  bad_object bad_schema bad_counters bad_integer bad_time range_error : GateError

abbrev pub zero_counters : PilotCounters
zero_counters = record { rotations = 0; rehomes = 0; takeovers = 0 }

-- The constructor.
unfoldable pub new : ℕ → PilotQualificationGate
new started = record {
  epoch = 1;
  warmup_started_at = started;
  pilot_started_at = none;
  last_safety_failure_at = none;
  last_observed_at = started;
  reset_count = 0;
  counters = zero_counters;
}

-- A method ends with its value or its error, and the gate as it then is.
abbrev pub Outcome : Type 0 → Type 0
Outcome A = Result GateError A × PilotQualificationGate

-- `toISOString` of a time, and of one that may be null.
abbrev iso : Dates → ℕ → Result GateError Text
iso dates t = elim (dates.to_iso t) [ none ↦ err range_error | some text ↦ ok text ]

abbrev iso_or_null : Dates → Option ℕ → Result GateError (Option Text)
iso_or_null dates none = ok none
iso_or_null dates (some t) = do text ← iso dates t; ok (some text)

unfoldable pub snapshot : Dates → PilotQualificationGate → Result GateError PilotGateSnapshot
snapshot dates g = do
  warmup ← iso dates g.warmup_started_at
  pilot ← iso_or_null dates g.pilot_started_at
  failure ← iso_or_null dates g.last_safety_failure_at
  ok (record {
    epoch = g.epoch;
    warmup_started_at = warmup;
    pilot_started_at = pilot;
    last_safety_failure_at = failure;
    reset_count = g.reset_count;
    counters = g.counters;
  })

-- `#observe` followed by the rest of a method.
abbrev observe_then :
    {A : Type 0} → ℕ → (PilotQualificationGate → Outcome A) → PilotQualificationGate → Outcome A
observe_then at rest g =
    if ltb at g.last_observed_at
    then (err not_monotonic, g)
    else rest (record g { last_observed_at = at })

abbrev or_now : Option ℕ → ℕ → Option ℕ
or_now none at = some at
or_now (some t) at = some t

unfoldable pub start_pilot_clock : Dates → ℕ → PilotQualificationGate → Outcome PilotGateSnapshot
unfolding snapshot
start_pilot_clock dates at = observe_then at λ g.
    if ltb (at - g.warmup_started_at) warmup_window_ms
    then (err warmup_not_complete, g)
    else let started = record g { pilot_started_at = or_now g.pilot_started_at at } in
      (snapshot dates started, started)

abbrev pub remaining_of : PilotCounters → PilotCounters
remaining_of c = record {
  rotations = 100 - c.rotations;
  rehomes = 30 - c.rehomes;
  takeovers = 100 - c.takeovers;
}

abbrev window_complete : Option ℕ → ℕ → Bool
window_complete none at = false
window_complete (some t) at = leb pilot_window_ms (at - t)

-- What `evaluate` reports of a gate whose pilot clock is settled.
abbrev report : ℕ → Bool → PilotQualificationGate → GateEvaluation
report at warm g =
    let remaining = remaining_of g.counters in
    let window = window_complete g.pilot_started_at at in
    let complete = remaining.rotations == 0 && remaining.rehomes == 0 && remaining.takeovers == 0 in
    record {
      warmup_complete = warm;
      pilot_running = not (is_none g.pilot_started_at);
      continuous_window_complete = window;
      counters_complete = complete;
      qualified = window && complete;
      remaining = remaining;
    }

unfoldable pub evaluate : ℕ → PilotQualificationGate → Outcome GateEvaluation
evaluate at = observe_then at λ g.
    let warm = leb warmup_window_ms (at - g.warmup_started_at) in
    let settled =
      if warm then record g { pilot_started_at = or_now g.pilot_started_at at } else g in
    (ok (report at warm settled), settled)

abbrev add_counter : CounterKind → ℕ → PilotCounters → PilotCounters
add_counter rotations n c = record c { rotations = c.rotations + n }
add_counter rehomes n c = record c { rehomes = c.rehomes + n }
add_counter takeovers n c = record c { takeovers = c.takeovers + n }

-- The amount is a whole number.
unfoldable pub record_counter : CounterKind → ℕ → ℕ → PilotQualificationGate → Outcome (Unit {0})
unfolding evaluate
record_counter kind amount at g =
    if amount == 0
    then (err bad_amount, g)
    else let (status, h) = evaluate at g in
      elim status [
        | err e ↦ (err e, h)
        | ok s ↦
            if not s.pilot_running
            then (err counter_before_warmup, h)
            else (ok tt, record h { counters = add_counter kind amount h.counters })
      ]

unfoldable pub record_safety_failure :
    Dates → ℕ → PilotQualificationGate → Outcome PilotGateSnapshot
unfolding snapshot
record_safety_failure dates at = observe_then at λ g.
    let reset = record g {
      last_safety_failure_at = some at;
      epoch = g.epoch + 1;
      reset_count = g.reset_count + 1;
      warmup_started_at = at;
      pilot_started_at = none;
      counters = zero_counters;
    } in
    (snapshot dates reset, reset)

-- A call of one of the methods that change the gate.
pub data Call : Type 0 where
  start evaluated failed : ℕ → Call
  counted : CounterKind → ℕ → ℕ → Call

unfoldable pub step : Dates → Call → PilotQualificationGate → PilotQualificationGate
unfolding start_pilot_clock evaluate record_counter record_safety_failure
step dates (start at) g = (start_pilot_clock dates at g).1
step dates (evaluated at) g = (evaluate at g).1
step dates (failed at) g = (record_safety_failure dates at g).1
step dates (counted kind amount at) g = (record_counter kind amount at g).1

unfoldable pub run : Dates → List Call → PilotQualificationGate → PilotQualificationGate
run dates [] g = g
run dates (c ∷ cs) g = run dates cs (step dates c g)
