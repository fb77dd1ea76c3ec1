-- ===== src/Pilot/Scheduler/Rotation.antt =====
-- The topology and the serial ticks of pilot/src/scheduler.ts over sequences of calls.
use co_net_dle.Common.{
  ℕ, zero, suc, ◌+◌, ◌-◌, ◌%◌, ◌<◌, ◌≡◌, refl, ap, ◌∙◌, ◌⊎◌, inl, inr, Bool, true, false, some,
  List, [], ◌∷◌, ◌++◌, arith, ok, err, length, get_elem?, set, length-set, length-append, Text,
  text_beq, Bool-cases, Option-cases,
}
use co_net_dle.Pilot.Scheduler.{
  OperatorDomain, active, standby, SchedulerError, overlap_rejected, in_flight_tick,
  active_not_found, no_standby, Scheduler, find_domain, new_scheduler, start, stop, wait_for_idle,
  begin_tick, end_tick, simulate_takeover, fire, reschedule,
}

-- What can happen to a scheduler, one call or callback at a time.
pub data SchedulerEvent : Type 0 where
  starts stops waits ticks ends fires reschedules : SchedulerEvent
  takes_over : Text → SchedulerEvent

unfoldable pub happen : Scheduler → SchedulerEvent → Scheduler
unfolding start stop wait_for_idle begin_tick end_tick fire reschedule simulate_takeover
happen s starts = start s
happen s stops = stop s
happen s waits = (wait_for_idle s).0
happen s ticks = (begin_tick s).0
happen s ends = end_tick s
happen s fires = (fire s).0
happen s reschedules = reschedule s
happen s (takes_over id) = (simulate_takeover id s).0

unfoldable pub happen_all : Scheduler → List SchedulerEvent → Scheduler
unfolding happen
happen_all s [] = s
happen_all s (e ∷ es) = happen_all (happen s e) es

abbrev pub HasTopology : Scheduler → Type 0
HasTopology s = (length s.active_domains ≡ 5) × (length s.standby_domains ≡ 2)

new_scheduler_topology :
    (preflight : Bool) (domains : List OperatorDomain) (s : Scheduler)
    → new_scheduler preflight domains ≡ ok s
    → HasTopology s
unfolding new_scheduler
new_scheduler_topology preflight domains s h = ground arith

get_below : {A : Type 0} (xs : List A) (i : ℕ) → i < length xs → (x : A) × (get_elem? xs i ≡ some x)
get_below [] i h = absurd (omega arith)
get_below (x ∷ xs) zero h = (x, refl)
get_below (x ∷ xs) (suc i) h = get_below xs i (omega arith)

find_below :
    (id : Text) (ds : List OperatorDomain) (i : ℕ) → find_domain id ds ≡ some i → i < length ds
find_below id [] i h = cc
find_below id (d ∷ ds) i h = elim (Bool-cases (text_beq d.domain_id id)) [
  | inl same ↦ ground arith
  | inr other ↦ elim (Option-cases (find_domain id ds)) [
    | inl e ↦ ground (arith, rw (other, e) at h)
    | inr (j, e) ↦ let below = find_below id ds j e in ground (arith, rw (other, e) at h)
  ]
]

List-cases : {A : Type 0} (xs : List A) → (xs ≡ []) ⊎ ((y : A) × (ys : List A) × (xs ≡ y ∷ ys))
List-cases [] = inl refl
List-cases (y ∷ ys) = inr (y, ys, refl)

-- A takeover that is refused, with the scheduler as it was, or the swap of the first standby domain with
-- the failed one.
abbrev pub Swap :
    Text → Scheduler → ℕ → OperatorDomain → List OperatorDomain → OperatorDomain → Type 0
Swap id s i promoted rest failed =
    (s.standby_domains ≡ promoted ∷ rest)
    × (get_elem? s.active_domains i ≡ some failed)
    × (simulate_takeover id s ≡ (
      record s {
        active_domains = set s.active_domains i (record promoted { role = active });
        standby_domains = rest ++ (record failed { role = standby } ∷ []);
      },
      ok (promoted.domain_id, failed.domain_id),
    ))

pub takeover-cases :
    (id : Text) (s : Scheduler)
    → ((e : SchedulerError) × (simulate_takeover id s ≡ (s, err e)))
      ⊎ ((i : ℕ) × (promoted : OperatorDomain) × (rest : List OperatorDomain)
          × (failed : OperatorDomain) × Swap id s i promoted rest failed)
unfolding simulate_takeover
takeover-cases id s = elim (Bool-cases s.in_flight) [
  | inl busy ↦ inl (in_flight_tick, simp busy)
  | inr idle ↦ elim (Option-cases (find_domain id s.active_domains)) [
    | inl missing ↦ inl (active_not_found, simp (idle, missing))
    | inr (i, found) ↦ elim (List-cases s.standby_domains) [
      | inl empty ↦ inl (no_standby, simp (idle, found, empty))
      | inr (promoted, rest, next) ↦
          let (failed, at) =
            get_below s.active_domains i (find_below id s.active_domains i found) in
          inr (i, promoted, rest, failed, (next, at, simp (idle, found, next, at)))
    ]
  ]
]

takeover_topology :
    (s : Scheduler) (id : Text) → HasTopology s → HasTopology (simulate_takeover id s).0
takeover_topology s id t = elim (takeover-cases id s) [
  | inl (e, refused) ↦ rw refused t
  | inr (i, promoted, rest, failed, (next, at, swap)) ↦ rw swap (
    length-set s.active_domains i (record promoted { role = active }) ∙ t.0,
    length-append rest (record failed { role = standby } ∷ []) ∙ omega (arith, ap length next, t.1),
  )
]

happen_topology : (s : Scheduler) (e : SchedulerEvent) → HasTopology s → HasTopology (happen s e)
unfolding happen start stop wait_for_idle begin_tick end_tick fire reschedule
happen_topology s starts t = ground arith
happen_topology s stops t = t
happen_topology s waits t = ground arith
happen_topology s ticks t = ground arith
happen_topology s ends t = t
happen_topology s fires t = ground arith
happen_topology s reschedules t = ground arith
happen_topology s (takes_over id) t = takeover_topology s id t

happen_all_topology :
    (s : Scheduler) (es : List SchedulerEvent) → HasTopology s → HasTopology (happen_all s es)
unfolding happen_all
happen_all_topology s [] t = t
happen_all_topology s (e ∷ es) t = happen_all_topology (happen s e) es (happen_topology s e t)

-- A scheduler that was made from an inventory, after any calls and callbacks, has five active domains and
-- two on standby, and a tick begins exactly when none is in flight, with the active domain whose turn it is.
pub scheduler_ticks :
    (preflight : Bool) (domains : List OperatorDomain) (made : Scheduler)
    → new_scheduler preflight domains ≡ ok made
    → (es : List SchedulerEvent)
    → let s = happen_all made es in
      HasTopology s
      × (((s.in_flight ≡ true) × (begin_tick s ≡ (s, err overlap_rejected)))
          ⊎ ((s.in_flight ≡ false)
              × ((d : OperatorDomain) × (get_elem? s.active_domains (s.tick % 5) ≡ some d)
                  × (begin_tick s ≡ (
                    record s { in_flight = true; tick = s.tick + 1 },
                    ok (record {
                      number = s.tick;
                      active_domain = d;
                      all_active = s.active_domains;
                      all_standby = s.standby_domains;
                    }),
                  )))))
unfolding begin_tick
scheduler_ticks preflight domains made h es =
    let s = happen_all made es in
    let t = happen_all_topology made es (new_scheduler_topology preflight domains made h) in
    let (d, at) = get_below s.active_domains (s.tick % 5) (omega (arith, t.0)) in
    (
      t,
      elim (Bool-cases s.in_flight) [
        | inl busy ↦ inl (busy, rw busy refl)
        | inr idle ↦ inr (idle, (d, at, rw (idle, t.0, at) refl))
      ],
    )

-- Among any five ticks in a row without a takeover between, every active domain has one.
pub every_turn_comes : (i tick : ℕ) → i < 5 → (k : ℕ) × (k < 5) × ((tick + k) % 5 ≡ i)
every_turn_comes i tick h = ((i + 5 - tick % 5) % 5, omega arith, omega arith)
