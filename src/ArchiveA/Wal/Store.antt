-- ===== src/ArchiveA/Wal/Store.antt =====
-- The class `AppendOnlyWal` of implementations/archive-a/src/core.ts: the file, and what is appended.
pub mod Appends
use co_net_dle.Common.{
  ℕ, ◌+◌, Bool, true, false, Option, none, some, List, [], ◌∷◌, ◌++◌, Result, ok, err,
  if◌then◌else◌, length, take, Bytes,
}
use co_net_dle.ArchiveA.Types.{wal_recovery_required}
use co_net_dle.ArchiveA.Ssz.{Thrown, dle}
use co_net_dle.ArchiveA.Wal.{WalFrame, DecodedWal, encode_wal_frame, decode_wal}

-- The file's bytes; none where there is no file.
abbrev pub File : Type 0
File = Option Bytes

abbrev pub contents : File → Bytes
contents none = []
contents (some bytes) = bytes

-- What the file system does with a frame: how many of its bytes reach the file, and whether writing,
-- syncing or closing throws.
pub record Disk : Type 0 where
  pub kept : ℕ
  pub fails : Bool

pub data StoreError : Type 0 where
  protocol : Thrown → StoreError
  io : StoreError

unfoldable pub read : (Bytes → Bytes) → File → DecodedWal
unfolding decode_wal
read sha256 none = record { frames = []; recovery_required = false; valid_bytes = 0 }
read sha256 (some bytes) = decode_wal sha256 bytes

-- `openSync(path, "a")`, `writeSync`, whose count is not looked at, and `fsyncSync`. The encoder is
-- called with the file open.
abbrev pub write_frame :
    Disk → WalFrame → Result Thrown Bytes → File → Result StoreError WalFrame × File
write_frame disk frame (err e) file = (err (protocol e), some (contents file))
write_frame disk frame (ok bytes) file =
    (if disk.fails then err io else ok frame, some (contents file ++ take disk.kept bytes))

unfoldable pub append :
    (Bytes → Bytes) → Disk → Bytes → ℕ → File → Result StoreError WalFrame × File
unfolding read encode_wal_frame
append sha256 disk payload flags file =
    let decoded = read sha256 file in
    let frame : WalFrame = record {
      sequence = length decoded.frames + 1;
      flags = flags;
      payload = payload;
    } in
    if decoded.recovery_required
    then (err (protocol (dle wal_recovery_required)), file)
    else write_frame disk frame (encode_wal_frame sha256 frame) file

-- A call of `append`.
pub record Write : Type 0 where
  pub disk : Disk
  pub payload : Bytes
  pub flags : ℕ

-- Calls one after the other, whether they return or throw: the file.
unfoldable pub append_all : (Bytes → Bytes) → List Write → File → File
unfolding append
append_all sha256 [] file = file
append_all sha256 (w ∷ ws) file =
    append_all sha256 ws (append sha256 w.disk w.payload w.flags file).1
