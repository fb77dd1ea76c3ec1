-- ===== src/ArchiveB/Certificates/Coordinator.antt =====
-- `selectCoordinatorDetails` of implementations/archive-b/src/certificates.ts: the draw.
use co_net_dle.Common.{
  ℕ, zero, suc, ◌+◌, ◌%◌, ◌≤◌, ◌<◌, ◌≡◌, refl, ◌⊎◌, inl, inr, some, List, ◌++◌, arith, ok, ltb,
  ◌==◌, get_elem?, take, Bytes, from_le, le_bytes, le_rest, ltb→lt, ok_injective, Bool-cases,
  Option-cases,
}
use mathlib.Core.List.{Perm}
use co_net_dle.ArchiveB.Certificates.Roster.{Rising, sort-Perm, sort-Rising}
use co_net_dle.ArchiveB.Certificates.{
  uint_le, CoordinatorInput, CoordinatorDetails, sample_limit, coordinator_domain, sort_members,
  draw, select_coordinator_details,
}

-- The sample of a counter.
abbrev pub sample_at : (Bytes → Bytes) → Bytes → ℕ → ℕ
sample_at sha256 base counter = from_le (take 8 (sha256 (base ++ le_bytes 4 counter)))

-- The samples of the next counters are not below the limit.
abbrev pub Rejected : (Bytes → Bytes) → Bytes → ℕ → ℕ → Type 0
Rejected sha256 base counter zero = Unit
Rejected sha256 base counter (suc n) =
    (0xffff_ffff_ffff_ffff ≤ sample_at sha256 base counter) × Rejected sha256 base (counter + 1) n

-- What a draw from a counter on gives.
pub record IsDraw (sha256 : Bytes → Bytes) (base : Bytes) (roster : List Bytes) (from : ℕ)
    (d : CoordinatorDetails) : Type 0 where
  pub canonical : d.canonical_roster ≡ roster
  pub index_is : d.index ≡ d.sample % 5
  pub member : get_elem? roster d.index ≡ some d.coordinator
  pub unbiased : d.sample < 0xffff_ffff_ffff_ffff
  pub sampled : d.sample ≡ sample_at sha256 base d.counter
  pub skipped : ℕ
  pub reached : d.counter ≡ from + skipped
  pub first : Rejected sha256 base from skipped

draw_step :
    (sha256 : Bytes → Bytes) (base : Bytes) (roster : List Bytes) (counter left : ℕ)
    (d : CoordinatorDetails)
    → draw sha256 base roster counter (suc left) ≡ ok d
    → ((sample_at sha256 base counter < 0xffff_ffff_ffff_ffff)
        × (c : Bytes) × (get_elem? roster (sample_at sha256 base counter % 5) ≡ some c)
        × (record {
          canonical_roster = roster;
          digest = sha256 (base ++ le_bytes 4 counter);
          sample = sample_at sha256 base counter;
          index = sample_at sha256 base counter % 5;
          coordinator = c;
          counter = counter;
        }
            ≡ d))
      ⊎ ((0xffff_ffff_ffff_ffff ≤ sample_at sha256 base counter)
          × (draw sha256 base roster (counter + 1) left ≡ ok d))
unfolding draw uint_le
draw_step sha256 base roster counter left d h =
    let sample = sample_at sha256 base counter in
    elim (Bool-cases (le_rest 4 counter == 0)) [
      | inr over ↦ ground (arith, rw over at h)
      | inl fits ↦ elim (Bool-cases (ltb sample sample_limit)) [
        | inr high ↦ inr (ground arith, rw (fits, high) at h)
        | inl low ↦ elim (Option-cases (get_elem? roster (sample % 5))) [
          | inl outside ↦ ground (arith, rw (fits, low, outside) at h)
          | inr (c, at_c) ↦
              inl
                (ltb→lt sample sample_limit low, c, at_c, ok_injective (rw (fits, low, at_c) at h))
        ]
      ]
    ]

draw-IsDraw :
    (sha256 : Bytes → Bytes) (base : Bytes) (roster : List Bytes) (counter left : ℕ)
    (d : CoordinatorDetails)
    → draw sha256 base roster counter left ≡ ok d
    → IsDraw sha256 base roster counter d
unfolding draw
draw-IsDraw sha256 base roster counter zero d h = ground arith
draw-IsDraw sha256 base roster counter (suc left) d h =
    elim (draw_step sha256 base roster counter left d h) [
      | inl (low, c, at_c, e) ↦ rw (← e) (record {
        canonical = refl;
        index_is = refl;
        member = at_c;
        unbiased = low;
        sampled = refl;
        skipped = 0;
        reached = omega arith;
        first = tt;
      })
      | inr (high, later) ↦
          let rest = draw-IsDraw sha256 base roster (counter + 1) left d later in
          record {
            canonical = rest.canonical;
            index_is = rest.index_is;
            member = rest.member;
            unbiased = rest.unbiased;
            sampled = rest.sampled;
            skipped = suc rest.skipped;
            reached = omega (arith, rest.reached);
            first = (high, rest.first);
          }
    ]

-- What is hashed before the counter.
abbrev pub base_of : CoordinatorInput → Bytes
base_of x =
    coordinator_domain
    ++ (le_bytes 8 x.archive_group_id
        ++ (le_bytes 32 x.chain_nft_id
            ++ (le_bytes 8 x.tip_height
                ++ (le_bytes 8 x.attempt_nonce ++ (x.membership_root ++ le_bytes 4 x.round)))))

select_draws :
    (sha256 : Bytes → Bytes) (x : CoordinatorInput) (counters : ℕ) (d : CoordinatorDetails)
    → select_coordinator_details sha256 x counters ≡ ok d
    → draw sha256 (base_of x) (sort_members x.active_roster) 0 counters ≡ ok d
unfolding select_coordinator_details uint_le
select_draws sha256 x counters d h = ground arith

-- A coordinator that is selected is the member at place `sample % 5` of the roster's members in rising
-- order of their bytes, the same ones as often, and its sample is that of the first counter whose
-- sample is below 2 ^ 64 - 1, a multiple of five.
pub selected_coordinator :
    (sha256 : Bytes → Bytes) (x : CoordinatorInput) (counters : ℕ) (d : CoordinatorDetails)
    → select_coordinator_details sha256 x counters ≡ ok d
    → (roster : List Bytes) × Perm roster x.active_roster
      × Rising roster
      × IsDraw sha256 (base_of x) roster 0 d
selected_coordinator sha256 x counters d h =
    let roster = sort_members x.active_roster in
    (
      roster,
      sort-Perm x.active_roster,
      sort-Rising x.active_roster,
      draw-IsDraw sha256 (base_of x) roster 0 counters d (select_draws sha256 x counters d h),
    )
