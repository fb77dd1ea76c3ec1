-- ===== src/Pilot/Gate/Restore.antt =====
-- `snapshot` and `fromSnapshot` of pilot/src/gate.ts together.
use co_net_dle.Common.{ℕ, ◌≤◌, ◌≡◌, refl, ap, true, Option, none, some, arith, ok, Text}
use co_net_dle.Pilot.Gate.{
  PilotQualificationGate, PilotCounters, PilotGateSnapshot, Dates, iso, iso_or_null, snapshot,
}
use co_net_dle.Pilot.Gate.Snapshot.{
  RawValue, null, text, integer, RawSnapshot, required_integer, required_iso_time, time_or_null,
  parse_counters, parse_pilot_gate_snapshot, time_of_text, time_or_none, max_with, from_snapshot,
}
use co_net_dle.Pilot.Gate.Clock.{IsSound, PilotTimed, FailureTimed}

-- The stored gate with the latest time of its snapshot as the last observed one.
abbrev pub restored : PilotQualificationGate → PilotQualificationGate
restored g = record g {
  last_observed_at =
      max_with g.last_safety_failure_at (max_with g.pilot_started_at g.warmup_started_at);
}

-- A time that may be null, as an object's field.
abbrev raw_time : Option Text → RawValue
raw_time none = null
raw_time (some t) = text t

-- A snapshot as the object that `fromSnapshot` is given.
abbrev pub raw_of : PilotGateSnapshot → RawSnapshot
raw_of s = record {
  schema_known = true;
  epoch = integer s.epoch;
  warmup_started_at = text s.warmup_started_at;
  pilot_started_at = raw_time s.pilot_started_at;
  last_safety_failure_at = raw_time s.last_safety_failure_at;
  reset_count = integer s.reset_count;
  counters = some (record {
    rotations = integer s.counters.rotations;
    rehomes = integer s.counters.rehomes;
    takeovers = integer s.counters.takeovers;
  });
}

-- The last time that a `Date` has, in milliseconds.
abbrev pub last_time : ℕ
last_time = 8_640_000_000_000_000

-- `toISOString` has a text for every time of a `Date`, which `Date.parse` reads back.
abbrev pub ReadsBack : Dates → Type 0
ReadsBack dates =
    (t : ℕ)
    → t ≤ last_time
    → (iso_text : Text) × (dates.to_iso t ≡ some iso_text) × (dates.parse iso_text ≡ some t)

-- The time, where there is one, is one of a `Date`.
abbrev InRange : Option ℕ → Type 0
InRange none = Unit
InRange (some t) = t ≤ last_time

module _ (dates : Dates) (reads : ReadsBack dates) where
  time_back :
      (t : ℕ)
      → t ≤ last_time
      → (s : Text) × (iso dates t ≡ ok s)
        × (required_iso_time dates (text s) ≡ ok s)
        × (time_of_text dates s ≡ t)
  unfolding required_iso_time
  time_back t h =
      let (s, written, parsed) = reads t h in
      (s, rw (written, iso) refl, rw parsed refl, rw (parsed, time_of_text) refl)

  time_or_null_back :
      (t : Option ℕ)
      → InRange t
      → (s : Option Text) × (iso_or_null dates t ≡ ok s)
        × (time_or_null dates (raw_time s) ≡ ok s)
        × (time_or_none dates s ≡ t)
  unfolding time_or_null
  time_or_null_back none h = (none, refl, refl, refl)
  time_or_null_back (some t) h =
      let (s, written, checked, back) = time_back t h in
      (some s, rw written refl, rw checked refl, ap some back)

any_integer : (n : ℕ) → required_integer (integer n) 0 ≡ ok n
unfolding required_integer
any_integer n = ground arith

counters_back :
    (c : PilotCounters)
    → parse_counters (
        some (record {
          rotations = integer c.rotations;
          rehomes = integer c.rehomes;
          takeovers = integer c.takeovers;
        }))
      ≡ ok c
unfolding parse_counters
counters_back c = rw (any_integer c.rotations, any_integer c.rehomes, any_integer c.takeovers) refl

-- A snapshot whose epoch and times pass the tests is parsed as it stands.
parse_back :
    (dates : Dates) (s : PilotGateSnapshot)
    → required_integer (integer s.epoch) 1 ≡ ok s.epoch
    → required_iso_time dates (text s.warmup_started_at) ≡ ok s.warmup_started_at
    → time_or_null dates (raw_time s.pilot_started_at) ≡ ok s.pilot_started_at
    → time_or_null dates (raw_time s.last_safety_failure_at) ≡ ok s.last_safety_failure_at
    → parse_pilot_gate_snapshot dates (some (raw_of s)) ≡ ok s
unfolding parse_pilot_gate_snapshot
parse_back dates s e w p f =
    rw (counters_back s.counters, e, w, p, f, any_integer s.reset_count) refl

-- The gate with the snapshot's times.
from_parsed :
    (dates : Dates) (raw : Option RawSnapshot) (s : PilotGateSnapshot) (g : PilotQualificationGate)
    → parse_pilot_gate_snapshot dates raw ≡ ok s
    → s.epoch ≡ g.epoch
    → s.reset_count ≡ g.reset_count
    → s.counters ≡ g.counters
    → time_of_text dates s.warmup_started_at ≡ g.warmup_started_at
    → time_or_none dates s.pilot_started_at ≡ g.pilot_started_at
    → time_or_none dates s.last_safety_failure_at ≡ g.last_safety_failure_at
    → from_snapshot dates raw ≡ ok (restored g)
unfolding from_snapshot
from_parsed dates raw s g parsed e r c w p f = rw (parsed, e, r, c, w, p, f) refl

InRange-pilot :
    (t : Option ℕ) (warm seen : ℕ) → PilotTimed t warm seen → seen ≤ last_time → InRange t
InRange-pilot none warm seen h k = tt
InRange-pilot (some t) warm seen h k = omega (arith, h.1, k)

InRange-failure :
    (t : Option ℕ) (warm seen : ℕ)
    → FailureTimed t warm
    → warm ≤ seen
    → seen ≤ last_time
    → InRange t
InRange-failure none warm seen h l k = tt
InRange-failure (some t) warm seen h l k = omega (arith, h, l, k)

restored-IsSound :
    (g : PilotQualificationGate)
    → IsSound g
    → ((restored g).last_observed_at ≤ g.last_observed_at) × IsSound (restored g)
restored-IsSound g h = ground arith

-- A sound gate whose last observed time is one of a `Date` has a snapshot, and the gate that
-- `fromSnapshot` makes of it, its texts parsed and its fields tested, has all that the gate had but the
-- last observed time, which goes back to the latest time in the snapshot and so may be earlier; it is
-- sound again.
pub restore_snapshot :
    (dates : Dates)
    → ReadsBack dates
    → (g : PilotQualificationGate) → IsSound g
    → g.last_observed_at ≤ last_time
    → (s : PilotGateSnapshot) × (snapshot dates g ≡ ok s)
      × (from_snapshot dates (some (raw_of s)) ≡ ok (restored g))
      × ((restored g).last_observed_at ≤ g.last_observed_at)
      × IsSound (restored g)
unfolding snapshot required_integer
restore_snapshot dates reads g h range =
    let seen = h.warmup_seen in
    let (w, w_text, w_checked, w_back) =
      time_back dates reads g.warmup_started_at (omega (arith, seen, range)) in
    let (p, p_text, p_checked, p_back) = time_or_null_back dates reads g.pilot_started_at (
      InRange-pilot g.pilot_started_at g.warmup_started_at g.last_observed_at h.pilot_timed
        range) in
    let (f, f_text, f_checked, f_back) = time_or_null_back dates reads g.last_safety_failure_at (
      InRange-failure g.last_safety_failure_at g.warmup_started_at g.last_observed_at
        h.failure_timed seen range) in
    let (earlier, sound) = restored-IsSound g h in
    let epoch : required_integer (integer g.epoch) 1 ≡ ok g.epoch =
      let counted = h.epochs_counted in ground arith in
    let s : PilotGateSnapshot = record {
      epoch = g.epoch;
      warmup_started_at = w;
      pilot_started_at = p;
      last_safety_failure_at = f;
      reset_count = g.reset_count;
      counters = g.counters;
    } in
    let parsed = parse_back dates s epoch w_checked p_checked f_checked in
    (
      s,
      rw (w_text, p_text, f_text) refl,
      from_parsed dates (some (raw_of s)) s g parsed refl refl refl w_back p_back f_back,
      earlier,
      sound,
    )
