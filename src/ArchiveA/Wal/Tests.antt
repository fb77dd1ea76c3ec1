-- ===== src/ArchiveA/Wal/Tests.antt =====
-- The log at concrete frames, with a hash that only looks at the length.
use co_net_dle.Common.{
  ◌≡◌, refl, true, false, none, List, [], ◌∷◌, ◌++◌, length, take, replicate, Bytes, le_bytes,
  arith,
}
use co_net_dle.ArchiveA.Wal.{WalFrame, decode_wal}
use co_net_dle.ArchiveA.Wal.Log.{with_frames}
use co_net_dle.ArchiveA.Wal.Torn.{torn_write}
use co_net_dle.ArchiveA.Wal.Store.{Write, read, append_all}
use co_net_dle.ArchiveA.Wal.Store.Appends.{frames_stay}
use co_net_dle.ArchiveB.Wal.Frame.Layout.{Entry, bytes_of}
use co_net_dle.ArchiveB.Wal.Frame.RoundTrip.{log_bytes}

abbrev digest : Bytes → Bytes
digest b = replicate 32 (length b)

abbrev first : Entry
first = record { sequence = 1; flags = 1; payload = 4 ∷ 5 ∷ [] }

abbrev second : Entry
second = record { sequence = 2; flags = 1; payload = 6 ∷ [] }

torn_write_example :
    decode_wal digest (log_bytes digest (first ∷ []) ++ take 60 (bytes_of digest second))
    ≡ with_frames (first ∷ []) (record { frames = []; recovery_required = true; valid_bytes = 86 })
unfolding le_bytes
torn_write_example =
    torn_write digest (λ b. refl) (first ∷ []) second 59 (refl, tt)
      (
        record { sequence_fits = omega arith; flags_fit = omega arith; payload_fits = omega arith },
        tt,
      )
      refl
      (record { sequence_fits = omega arith; flags_fit = omega arith; payload_fits = omega arith })
      (omega arith)

abbrev whole : Write
whole = record { disk = record { kept = 100; fails = false }; payload = 4 ∷ 5 ∷ []; flags = 1 }

abbrev broken : Write
broken = record { disk = record { kept = 9; fails = true }; payload = 6 ∷ []; flags = 1 }

frames_stay_example :
    (more : List WalFrame) × ((read digest
        (append_all digest (broken ∷ whole ∷ []) (append_all digest (whole ∷ []) none))).frames
      ≡ (read digest (append_all digest (whole ∷ []) none)).frames ++ more)
frames_stay_example = frames_stay digest (λ b. refl) (whole ∷ []) (broken ∷ whole ∷ [])
