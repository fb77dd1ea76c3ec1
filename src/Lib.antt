-- ===== src/Lib.antt =====
-- A verification library for the archive protocol of this repository.
--
-- The program is a protocol in which groups of five active archives and two standbys agree, block by
-- block, on the state of hosted chains. The parts modelled here, and the files that model them:
--
-- implementations/archive-b/src: an implementation of the archive protocol.
--   consensus.ts   ArchiveB/Consensus: the class ArchiveTendermint (on_proposal for onProposal, and so
--                  on for each method; commit for #commit, with its parts before and after the await).
--                  ArchiveB/Machine: the transition function applyTendermintInput.
--                  ArchiveB/Membership: the assertions on membership roots.
--   types.ts       ArchiveB/Types.
--   lifecycle.ts   ArchiveB/Roster: validateFivePlusTwo and what builds on it. ArchiveB/Lifecycle/Phases:
--                  advanceArchiveLifecycle. ArchiveB/Lifecycle/Machine: applyLifecycleInput.
--   wal.ts         ArchiveB/Wal: the record's codec (Payload, Reader, Record), the frame's codec (Frame)
--                  and the class FramedSafetyWal (Store).
--   certificates.ts ArchiveB/Certificates: validateCertificate and selectCoordinatorDetails.
--                  ArchiveB/Certificates/Encoding: the containers, roots and references of certificates.
--   ssz.ts         ArchiveB/Ssz: containers with a schema (Root: their Merkle root; Messages: proposals
--                  and votes).
-- implementations/archive-a/src/core.ts: a second implementation of the same protocol, in one file.
--                  ArchiveA/Machine: applyTendermintInput. ArchiveA/Lifecycle: applyLifecycleInput.
--                  ArchiveA/Ssz and ArchiveA/Containers: serializeContainer, decodeContainer,
--                  hashTreeRoot, signingRoot and certificateRef. ArchiveA/Certificates:
--                  validateCertificate. ArchiveA/Wal: encodeWalFrame, decodeWal, the safety records
--                  (Record) and the class AppendOnlyWal (Store; appendSafetyRecord
--                  in Safety). The modules Refinement and Agreement below these compare them with
--                  archive-b.
-- runtime/src: the archive node of the laboratory plane.
--   archive/bft    Runtime/Bft/Round: applyArchiveRoundInput of tendermint.ts. Runtime/Bft/Quorum:
--                  acceptVote and the signers' count of quorum.ts, with the vote tests of mac.ts.
--                  Runtime/Bft/Quorum/Store: the votes kept by ingestVote of engine.ts.
--                  Runtime/Bft/Quorum/Certificates: buildPrevoteQc and buildArchiveCertificate.
--   shared         Runtime/Trade/Match: findBestMatch of tradeMatch.ts. Runtime/Trade/Fees:
--                  computeFeeSplit of mockL1.ts.
-- pilot/src: the qualification run of the operators.
--   gate.ts        Pilot/Gate: the class PilotQualificationGate, its snapshots in Gate/Snapshot.
--   scheduler.ts   Pilot/Scheduler: the class SerialPilotScheduler.
--
-- How they interact: the votes that Consensus intends are made durable by Wal/Store before they are
-- sent; Lifecycle and Membership say which archives may sign at a height; Runtime/Bft collects the
-- signed votes and Certificates checks what they make. Common holds what all parts share.
--
-- How the state is modelled. An object is a record, and a method takes it and returns the object after
-- the call with the value or the error. A promise that another part settles is an argument: persist says
-- whether the callback of #commit stores a transition, Answers says what the file does with each write.
-- Hashes and hex texts that are only compared are numbers (0 for the zero hash); those that are encoded
-- are their bytes. Decimal texts and bigints are natural numbers, so no time, height or price is
-- negative; the log's slots keep the text of a vote's height and the trades that of a token, which the
-- source compares as texts. toISOString and Date.parse are parameters. sha256, keccak and the check of a signature are parameters; of sha256 a theorem assumes at most that
-- its digests have 32 bytes. Values in objects are Common/Values. JSON and its codec are a parameter of the log.
--
-- Bounds and fuel. decode_wal_frames runs its loop on the input's length as fuel; a frame takes at least
-- 84 bytes of it. write_fully runs on the list of the file's answers. draw runs on the
-- number of counters left, of which the source has 2 ^ 32. Little-endian numbers are written modulo
-- 256 to their width with the overflow test of the source. decode_wal runs on the input's length too.
-- The loops of merkleize run on the number of chunks, which is at least the number of their turns, and
-- popcount on 33 turns, after which 32 bits are used up.
--
-- Not modelled: the coordinator of archive-a, the Reed-Solomon code, the state
-- roots, the rest of the runtime's engines, network, files, command lines and the explorer.
pub mod Common
pub mod ArchiveA
pub mod ArchiveB
pub mod Runtime
pub mod Pilot
