-- ===== src/Pilot/Scheduler/Takeover.antt =====
-- `simulateTakeover` of pilot/src/scheduler.ts and the domains of both lists.
use co_net_dle.Common.{
  ℕ, zero, suc, ◌+◌, ◌≡◌, refl, ap, ◌∙◌, inl, inr, some, List, [], ◌∷◌, ◌++◌, arith, if◌then◌else◌,
  get_elem?, some_injective, set, Text, text_beq,
}
use co_net_dle.Pilot.Scheduler.{OperatorDomain, active, standby, Scheduler, simulate_takeover}
use co_net_dle.Pilot.Scheduler.Rotation.{SchedulerEvent, happen, happen_all, takeover-cases}
use co_net_dle.Pilot.Scheduler.{start, stop, wait_for_idle, begin_tick, end_tick, fire, reschedule}

-- How many of the domains have the identifier.
abbrev pub times : Text → List OperatorDomain → ℕ
times id [] = 0
times id (d ∷ ds) = (if text_beq d.domain_id id then 1 else 0) + times id ds

abbrev pub one : Text → OperatorDomain → ℕ
one id d = if text_beq d.domain_id id then 1 else 0

times-append :
    (id : Text) (xs ys : List OperatorDomain) → times id (xs ++ ys) ≡ times id xs + times id ys
times-append id [] ys = omega arith
times-append id (x ∷ xs) ys = omega (arith, times-append id xs ys)

times-set :
    (id : Text) (xs : List OperatorDomain) (i : ℕ) (old new : OperatorDomain)
    → get_elem? xs i ≡ some old
    → times id (set xs i new) + one id old ≡ times id xs + one id new
times-set id [] i old new h = cc
times-set id (x ∷ xs) zero old new h = let e : x ≡ old = some_injective h in rw (← e) (omega arith)
times-set id (x ∷ xs) (suc i) old new h = omega (arith, times-set id xs i old new h)

abbrev pub domain_count : Text → Scheduler → ℕ
domain_count id s = times id s.active_domains + times id s.standby_domains

takeover_count :
    (id failed_id : Text) (s : Scheduler)
    → domain_count id (simulate_takeover failed_id s).0 ≡ domain_count id s
takeover_count id failed_id s = elim (takeover-cases failed_id s) [
  | inl (e, refused) ↦ rw refused refl
  | inr (i, promoted, rest, failed, (next, at, swap)) ↦
      let back = record failed { role = standby } in
      rw swap (
        omega (
          arith,
          times-set id s.active_domains i failed (record promoted { role = active }) at,
          times-append id rest (back ∷ []),
          ap (times id) next,
        ))
]

happen_count :
    (id : Text) (s : Scheduler) (e : SchedulerEvent)
    → domain_count id (happen s e) ≡ domain_count id s
unfolding happen start stop wait_for_idle begin_tick end_tick fire reschedule
happen_count id s SchedulerEvent.starts = ground arith
happen_count id s SchedulerEvent.stops = refl
happen_count id s SchedulerEvent.waits = ground arith
happen_count id s SchedulerEvent.ticks = ground arith
happen_count id s SchedulerEvent.ends = refl
happen_count id s SchedulerEvent.fires = ground arith
happen_count id s SchedulerEvent.reschedules = ground arith
happen_count id s (SchedulerEvent.takes_over failed) = takeover_count id failed s

-- Whatever is called, takeovers that succeed and those that are refused included, every domain
-- identifier stands as often in the two lists together as at the start.
pub domains_conserved :
    (id : Text) (s : Scheduler) (es : List SchedulerEvent)
    → domain_count id (happen_all s es) ≡ domain_count id s
unfolding happen_all
domains_conserved id s [] = refl
domains_conserved id s (e ∷ es) = domains_conserved id (happen s e) es ∙ happen_count id s e
