-- ===== src/Pilot/Scheduler/Tests.antt =====
-- The scheduler's properties at a concrete topology.
use co_net_dle.Common.{
  ◌+◌, ◌%◌, ◌≡◌, refl, ◌⊎◌, true, false, some, List, [], ◌∷◌, ok, err, get_elem?,
}
use co_net_dle.Pilot.Scheduler.{
  OperatorDomain, active, standby, overlap_rejected, Scheduler, new_scheduler, begin_tick,
}
use co_net_dle.Pilot.Scheduler.Rotation.{
  SchedulerEvent, starts, fires, ends, takes_over, happen_all, HasTopology, scheduler_ticks,
}
use co_net_dle.Pilot.Scheduler.Takeover.{domain_count, domains_conserved}

abbrev actives : List OperatorDomain
actives =
    record { domain_id = 1 ∷ []; role = active }
    ∷ record { domain_id = 2 ∷ []; role = active }
    ∷ record { domain_id = 3 ∷ []; role = active }
    ∷ record { domain_id = 4 ∷ []; role = active }
    ∷ record { domain_id = 5 ∷ []; role = active }
    ∷ []

abbrev standbys : List OperatorDomain
standbys =
    record { domain_id = 6 ∷ []; role = standby }
    ∷ record { domain_id = 7 ∷ []; role = standby }
    ∷ []

abbrev domains : List OperatorDomain
domains =
    record { domain_id = 6 ∷ []; role = standby }
    ∷ record { domain_id = 7 ∷ []; role = standby }
    ∷ actives

abbrev made : Scheduler
made = record {
  active_domains = actives;
  standby_domains = standbys;
  timer = false;
  running = false;
  in_flight = false;
  tick = 0;
  idle_waiters = 0;
}

abbrev events : List SchedulerEvent
events = starts ∷ fires ∷ ends ∷ takes_over (2 ∷ []) ∷ []

scheduler_ticks_example :
    let s = happen_all made events in
    HasTopology s
    × (((s.in_flight ≡ true) × (begin_tick s ≡ (s, err overlap_rejected)))
        ⊎ ((s.in_flight ≡ false)
            × ((d : OperatorDomain) × (get_elem? s.active_domains (s.tick % 5) ≡ some d)
                × (begin_tick s ≡ (
                  record s { in_flight = true; tick = s.tick + 1 },
                  ok (record {
                    number = s.tick;
                    active_domain = d;
                    all_active = s.active_domains;
                    all_standby = s.standby_domains;
                  }),
                )))))
unfolding new_scheduler
scheduler_ticks_example = scheduler_ticks true domains made refl events

domains_conserved_example :
    domain_count (2 ∷ []) (happen_all made events) ≡ domain_count (2 ∷ []) made
domains_conserved_example = domains_conserved (2 ∷ []) made events
