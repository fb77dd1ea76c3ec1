-- ===== src/ArchiveB/Wal/Store/Memory.antt =====
-- The memory of signed slots in `FramedSafetyWal` of implementations/archive-b/src/wal.ts.
use co_net_dle.Common.{
  ◌≡◌, refl, sym, ap, ◌∙◌, inl, inr, Bool, true, none, some, List, [], ◌∷◌, arith, ok, err,
  text_beq, text_beq_iff, text_beq_refl, Text, Bytes, Bool-cases, some_injective, Result-cases,
  Option-cases,
}
use co_net_dle.ArchiveB.Wal.Errors.{WalError}
use co_net_dle.ArchiveB.Wal.Payload.{DurableVoteRecord}
use co_net_dle.ArchiveB.Wal.Store.{
  WalRecord, vote, vote_slot, vote_fingerprint, Votes, get_vote, differs, Answers, FramedSafetyWal,
  Codec, remember, check_vote, write_record, append_operation, run_queue,
}

module _ {Json : Type 0} (codec : Codec Json) where
  -- A slot that the log has signed.
  abbrev Signed : FramedSafetyWal → Text → Bytes → Type 0
  Signed wal slot fingerprint = get_vote slot wal.votes ≡ some fingerprint

  -- A vote that the guard lets pass is the one that its slot holds, if it holds one.
  check_same :
      (height : Text) (r : DurableVoteRecord) (fingerprint f : Bytes) (present : Bool)
      (votes : Votes)
      → check_vote codec votes (vote height r) ≡ ok (fingerprint, present)
      → get_vote (vote_slot height r) votes ≡ some f
      → f ≡ fingerprint
  unfolding check_vote
  check_same height r fingerprint f present votes c s =
      elim (Result-cases (vote_fingerprint codec.sha256 r)) [
        | inl (g, e) ↦ elim (Bool-cases (text_beq f g)) [
          | inl same ↦ (text_beq_iff f g).0 same ∙ ground (arith, rw (e, s, same) at c)
          | inr other ↦ ground (arith, rw (e, s, other) at c)
        ]
        | inr (x, e) ↦ ground (arith, rw e at c)
      ]

  remember_keeps :
      (r : WalRecord Json) (fingerprint : Bytes) (present : Bool) (votes : Votes)
      → check_vote codec votes r ≡ ok (fingerprint, present)
      → (slot : Text) (f : Bytes) → get_vote slot votes ≡ some f
      → get_vote slot (remember codec r fingerprint votes) ≡ some f
  remember_keeps (vote height r) fingerprint present votes c slot f s =
      elim (Bool-cases (text_beq (vote_slot height r) slot)) [
        | inl same ↦
            let here = rw (← (text_beq_iff (vote_slot height r) slot).0 same) at s in
            rw same (ap some (sym (check_same height r fingerprint f present votes c here)))
        | inr other ↦ rw other s
      ]
  remember_keeps (WalRecord.state j) fingerprint present votes c slot f s = s
  remember_keeps (WalRecord.archive_certificate j) fingerprint present votes c slot f s = s

  -- After a write the memory is the old one or the one with the record.
  write_votes :
      (wal : FramedSafetyWal) (r : WalRecord Json) (fingerprint : Bytes) (answers : Answers)
      (slot : Text) (f : Bytes)
      → get_vote slot (remember codec r fingerprint wal.votes) ≡ some f
      → get_vote slot wal.votes ≡ some f
      → get_vote slot (write_record codec wal r fingerprint answers).0.votes ≡ some f
  unfolding write_record
  write_votes wal r fingerprint answers slot f k s = ground arith

  operation_keeps :
      (wal : FramedSafetyWal) (r : WalRecord Json) (answers : Answers) (slot : Text) (f : Bytes)
      → get_vote slot wal.votes ≡ some f
      → get_vote slot (append_operation codec wal r answers).0.votes ≡ some f
  unfolding append_operation
  operation_keeps wal r answers slot f s = elim (Bool-cases wal.recovery_required) [
    | inl stopped ↦ rw stopped s
    | inr goes ↦ elim (Result-cases (check_vote codec wal.votes r)) [
      | inr (e, c) ↦ rw (goes, c) s
      | inl ((fingerprint, present), c) ↦ elim (Bool-cases present) [
        | inl there ↦ rw (goes, c, there) s
        | inr new ↦
            rw (goes, c, new)
              (write_votes wal r fingerprint answers slot f
                (remember_keeps r fingerprint present wal.votes c slot f s) s)
      ]
    ]
  ]

  run_keeps :
      (wal : FramedSafetyWal) (queue : List (WalRecord Json × Answers)) (slot : Text) (f : Bytes)
      → get_vote slot wal.votes ≡ some f
      → get_vote slot (run_queue codec wal queue).votes ≡ some f
  unfolding run_queue
  run_keeps wal [] slot f s = s
  run_keeps wal ((r, answers) ∷ queue) slot f s =
      run_keeps (append_operation codec wal r answers).0 queue slot f
        (operation_keeps wal r answers slot f s)

  -- A vote whose write is acknowledged is remembered.
  write_remembers :
      (wal : FramedSafetyWal) (height : Text) (r : DurableVoteRecord) (fingerprint : Bytes)
      (answers : Answers)
      → (write_record codec wal (vote height r) fingerprint answers).1 ≡ ok tt
      → get_vote
          (vote_slot height r)
          (write_record codec wal (vote height r) fingerprint answers).0.votes
        ≡ some fingerprint
  unfolding write_record
  write_remembers wal height r fingerprint answers h =
      ground (arith, text_beq_refl (vote_slot height r))

  missing :
      (height : Text) (r : DurableVoteRecord) (fingerprint : Bytes) (votes : Votes)
      → get_vote (vote_slot height r) votes ≡ none
      → check_vote codec votes (vote height r) ≡ ok (fingerprint, true)
      → ⊥
  unfolding check_vote
  missing height r fingerprint votes n c = elim (Result-cases (vote_fingerprint codec.sha256 r)) [
    | inl (g, e) ↦ ground (arith, rw (e, n) at c)
    | inr (x, e) ↦ ground (arith, rw e at c)
  ]

  present_same :
      (height : Text) (r : DurableVoteRecord) (fingerprint : Bytes) (votes : Votes)
      → check_vote codec votes (vote height r) ≡ ok (fingerprint, true)
      → get_vote (vote_slot height r) votes ≡ some fingerprint
  present_same height r fingerprint votes c =
      elim (Option-cases (get_vote (vote_slot height r) votes)) [
        | inl empty ↦ absurd (missing height r fingerprint votes empty c)
        | inr (f, s) ↦ s ∙ ap some (check_same height r fingerprint f true votes c s)
      ]

  check_fingerprint :
      (height : Text) (r : DurableVoteRecord) (fingerprint : Bytes) (present : Bool) (votes : Votes)
      → check_vote codec votes (vote height r) ≡ ok (fingerprint, present)
      → vote_fingerprint codec.sha256 r ≡ ok fingerprint
  unfolding check_vote
  check_fingerprint height r fingerprint present votes c =
      elim (Result-cases (vote_fingerprint codec.sha256 r)) [
        | inl (g, e) ↦ elim (Bool-cases (differs (get_vote (vote_slot height r) votes) g)) [
          | inl d ↦ ground (arith, rw (e, d) at c)
          | inr d ↦ e ∙ ap ok (ground (arith, rw (e, d) at c))
        ]
        | inr (x, e) ↦ ground (arith, rw e at c)
      ]

  -- A vote that is acknowledged is in the memory.
  acknowledged_vote :
      (wal : FramedSafetyWal) (height : Text) (r : DurableVoteRecord) (answers : Answers)
      → (append_operation codec wal (vote height r) answers).1 ≡ ok tt
      → (f : Bytes) × (vote_fingerprint codec.sha256 r ≡ ok f)
        × (get_vote
              (vote_slot height r)
              (append_operation codec wal (vote height r) answers).0.votes
            ≡ some f)
  unfolding append_operation
  acknowledged_vote wal height r answers h = elim (Bool-cases wal.recovery_required) [
    | inl stopped ↦ ground (arith, rw stopped at h)
    | inr goes ↦ elim (Result-cases (check_vote codec wal.votes (vote height r))) [
      | inr (e, c) ↦ ground (arith, rw (goes, c) at h)
      | inl ((fingerprint, present), c) ↦ elim (Bool-cases present) [
        | inl there ↦ (
          fingerprint,
          check_fingerprint height r fingerprint present wal.votes c,
          rw (goes, c, there) (present_same height r fingerprint wal.votes (rw there at c)),
        )
        | inr new ↦ (
          fingerprint,
          check_fingerprint height r fingerprint present wal.votes c,
          rw (goes, c, new)
              (write_remembers wal height r fingerprint answers (rw (goes, c, new) at h)),
        )
      ]
    ]
  ]

  -- Two votes for the same domain, round and step and the same text of the height that the log
  -- acknowledges, whatever it is asked between the two and whatever the file answers, have the same
  -- fingerprint.
  pub no_double_sign :
      (wal : FramedSafetyWal) (height : Text) (r : DurableVoteRecord) (answers : Answers)
      (between : List (WalRecord Json × Answers)) (height' : Text) (r' : DurableVoteRecord)
      (answers' : Answers)
      → vote_slot height r ≡ vote_slot height' r'
      → (append_operation codec wal (vote height r) answers).1 ≡ ok tt
      → (append_operation codec
          (run_queue codec (append_operation codec wal (vote height r) answers).0 between)
          (vote height' r')
          answers').1
        ≡ ok tt
      → vote_fingerprint codec.sha256 r ≡ vote_fingerprint codec.sha256 r'
  no_double_sign wal height r answers between height' r' answers' same first second =
      let once = append_operation codec wal (vote height r) answers in
      let later = run_queue codec once.0 between in
      let (f, e, s) = acknowledged_vote wal height r answers first in
      let (f', e', s') = acknowledged_vote later height' r' answers' second in
      let kept =
        operation_keeps later (vote height' r') answers' (vote_slot height' r') f
          (run_keeps once.0 between (vote_slot height' r') f (rw (← same) s)) in
      e ∙ ap ok (some_injective (sym kept ∙ s')) ∙ sym e'

  stops :
      (wal : FramedSafetyWal) (r : WalRecord Json) (answers : Answers) (e : WalError)
      → (append_operation codec wal r answers).1 ≡ err e
      → (append_operation codec wal r answers).0.recovery_required ≡ true
  unfolding append_operation write_record
  stops wal r answers e h = ground arith

  refused :
      (wal : FramedSafetyWal) (r : WalRecord Json) (answers : Answers)
      → wal.recovery_required ≡ true
      → (append_operation codec wal r answers).0 ≡ wal
  unfolding append_operation
  refused wal r answers s = rw s refl

  absorbed :
      (wal : FramedSafetyWal) (queue : List (WalRecord Json × Answers))
      → wal.recovery_required ≡ true
      → run_queue codec wal queue ≡ wal
  unfolding run_queue
  absorbed wal [] s = refl
  absorbed wal ((r, answers) ∷ queue) s =
      ap (λ w. run_queue codec w queue) (refused wal r answers s) ∙ absorbed wal queue s

  -- An append that fails leaves a log that refuses every later record and does not touch its file.
  pub failure_stops :
      (wal : FramedSafetyWal) (r : WalRecord Json) (answers : Answers) (e : WalError)
      → (append_operation codec wal r answers).1 ≡ err e
      → (queue : List (WalRecord Json × Answers))
      → let stopped = (append_operation codec wal r answers).0 in
        run_queue codec stopped queue ≡ stopped
  failure_stops wal r answers e h queue =
      absorbed (append_operation codec wal r answers).0 queue (stops wal r answers e h)
