-- ===== src/Pilot/Scheduler.antt =====
-- pilot/src/scheduler.ts: `SerialPilotScheduler`, the rotation over the active domains and the takeover.
pub mod Rotation
pub mod Takeover
mod Tests
use co_net_dle.Common.{
  ℕ, ◌+◌, ◌%◌, Bool, true, false, not, ◌&&◌, ◌||◌, Option, none, some, List, [], ◌∷◌, ◌++◌, Result,
  ok, err, ◌>>=◌, ◌>>◌, throw_if, ◌==◌, if◌then◌else◌, length, get_elem?, set, Text, text_eq,
  text_beq,
}

pub data Role : Type 0 where
  active standby : Role

-- The fields of `OperatorDomainV1` that the scheduler reads.
pub record OperatorDomain : Type 0 where
  pub domain_id : Text
  pub role : Role

pub data SchedulerError : Type 0 where
  preflight_failed bad_topology overlap_rejected active_empty in_flight_tick active_not_found
        no_standby failed_disappeared :
      SchedulerError

-- `idle_waiters` counts the promises that wait.
pub record Scheduler : Type 0 where
  pub active_domains : List OperatorDomain
  pub standby_domains : List OperatorDomain
  pub timer : Bool
  pub running : Bool
  pub in_flight : Bool
  pub tick : ℕ
  pub idle_waiters : ℕ

-- What `work` is called with.
pub record SchedulerTick : Type 0 where
  pub number : ℕ
  pub active_domain : OperatorDomain
  pub all_active : List OperatorDomain
  pub all_standby : List OperatorDomain

abbrev pub is_active : OperatorDomain → Bool
is_active d = elim d.role [ active ↦ true | standby ↦ false ]

abbrev pub filter_of : (OperatorDomain → Bool) → List OperatorDomain → List OperatorDomain
filter_of p [] = []
filter_of p (d ∷ ds) = if p d then d ∷ filter_of p ds else filter_of p ds

-- `findIndex((domain) => domain.domainId === id)`.
abbrev pub find_domain : Text → List OperatorDomain → Option ℕ
find_domain id [] = none
find_domain id (d ∷ ds) =
    if text_beq d.domain_id id
    then some 0
    else elim (find_domain id ds) [ none ↦ none | some i ↦ some (i + 1) ]

-- The constructor, on a delay that is a finite number from zero on. The verdict of the inventory's
-- preflight is the first argument.
unfoldable pub new_scheduler : Bool → List OperatorDomain → Result SchedulerError Scheduler
new_scheduler preflight domains = do
  throw_if (not preflight) preflight_failed
  let active_domains = filter_of is_active domains
  let standby_domains = filter_of (λ d. not (is_active d)) domains
  throw_if (not (length active_domains == 5) || not (length standby_domains == 2)) bad_topology
  ok (record {
    active_domains = active_domains;
    standby_domains = standby_domains;
    timer = false;
    running = false;
    in_flight = false;
    tick = 0;
    idle_waiters = 0;
  })

unfoldable pub start : Scheduler → Scheduler
start s = if s.running then s else record s { running = true; timer = true }

unfoldable pub stop : Scheduler → Scheduler
stop s = record s { running = false; timer = false }

-- Whether the promise is resolved at once.
unfoldable pub wait_for_idle : Scheduler → Scheduler × Bool
wait_for_idle s =
    if not s.in_flight then (s, true) else (record s { idle_waiters = s.idle_waiters + 1 }, false)

-- `runOnce` up to its `await`: what `work` is called with.
unfoldable pub begin_tick : Scheduler → Scheduler × Result SchedulerError SchedulerTick
begin_tick s =
    if s.in_flight
    then (s, err overlap_rejected)
    else elim (get_elem? s.active_domains (s.tick % length s.active_domains)) [
      | none ↦ (record s { in_flight = true }, err active_empty)
      | some domain ↦ (
        record s { in_flight = true; tick = s.tick + 1 },
        ok (record {
          number = s.tick;
          active_domain = domain;
          all_active = s.active_domains;
          all_standby = s.standby_domains;
        }),
      )
    ]

-- The `finally` of `runOnce`, whether `work` returned or threw.
unfoldable pub end_tick : Scheduler → Scheduler
end_tick s = record s { in_flight = false; idle_waiters = 0 }

unfoldable pub simulate_takeover :
    Text → Scheduler → Scheduler × Result SchedulerError (Text × Text)
simulate_takeover failed_id s =
    if s.in_flight then (s, err in_flight_tick) else elim (find_domain failed_id s.active_domains) [
      | none ↦ (s, err active_not_found)
      | some i ↦ elim s.standby_domains [
        | [] ↦ (s, err no_standby)
        | promoted ∷ rest ↦ elim (get_elem? s.active_domains i) [
          | none ↦ (record s { standby_domains = rest }, err failed_disappeared)
          | some failed ↦ (
            record s {
              active_domains = set s.active_domains i (record promoted { role = active });
              standby_domains = rest ++ (record failed { role = standby } ∷ []);
            },
            ok (promoted.domain_id, failed.domain_id),
          )
        ]
      ]
    ]

-- The callback of the timer, before the tick, and `finally` after it.
unfoldable pub fire : Scheduler → Scheduler × Result SchedulerError SchedulerTick
unfolding begin_tick
fire s = begin_tick (record s { timer = false })

unfoldable pub reschedule : Scheduler → Scheduler
reschedule s = if s.running then record s { timer = true } else s
