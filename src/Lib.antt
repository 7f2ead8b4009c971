-- ===== src/Lib.antt =====
-- Model of the content-addressed store of library/effects and of the theorems that make it correct.
--
-- The store keeps nodes by the digest of their canonical bytes. A node is a kind (a version and a tag),
-- a payload, and references to other nodes, each with the tag that it expects there. A put encodes a
-- node, asks the byte plane for the facts about its references and its own address, hands bytes and
-- facts to one pure judgment, and only on an admission writes the bytes and then a receipt to the
-- word log. A load reads bytes back and verifies them: canonical decoding, known kind, recomputed
-- address. The history verb pages through the word log by marks.
--
-- Files and code:
--   Base          lists, options, tests on numbers, results and effects over an explicit state.
--   Node          library/effects/src/cas/Node.ts: kinds, references, nodes, errors; the schemas as
--                 tests (is_byte, is_content_id, is_reference, is_node_input). Node/Hex is the hex
--                 codec of the host's library, a parameter with its documented laws.
--   Codec         library/effects/src/internal/casCodec.ts (encodeCasNode, decodeCasNode, writeNat32,
--                 readNat32) and internal/bytes.ts (bytesEqual).
--   Admission     library/effects/src/internal/admission.ts (judgeAdmission).
--   Backend       library/effects/src/cas/Backend.ts: the seams ByteReader, ByteWriter, RootStore as
--                 interfaces over a world, and makeMemoryBackend.
--                 Backend/Kvs is makeKvsBackend of library/effects/src/cas/KvsBackend.ts over a key-value
--                 store that is a parameter; Store/Kvs compares the two backends under the store law.
--   WordLog       library/effects/src/cas/WordLog.ts (page limit, cursor, makeMemoryWordLog) and
--                 drainFrom of library/effects/bin/cli/history.ts.
--   Store         library/effects/src/cas/Store.ts: verifyNodeBytes, makeCasLoaderOver,
--                 makeCasStoreOver over any backend, digest, clock and word log. Store/Memory is the
--                 composition of makeMemoryCasStore, whose world is the plane, the word and the clock.
--   Wire          library/effects/src/internal/wire.ts: the capability, key-list and presence documents.
--   Server        library/effects/src/server: Protocol is Protocol.ts (the requests, decide, the status
--                 table), Core is Core.ts (makeCasServerCore over any backend).
--   Blob          library/effects/src/internal/blobGraph.ts (pow2Below, BlobManifestPayload) and the geometry
--                 of library/effects/src/cas/Blob.ts. Blob/Graph is admitBlobLeaf, loadChunk, loadParent,
--                 Blob/Graph/Write is finalizeBlobGraph and materializeBlobGraph, and Blob/Graph/Read is
--                 loadPlan, walk, stream, slice, get and readRange; Blob/Graph/Put is put.
--   Graph         library/effects/src/cas/Graph.ts: closure (walkWith over the loader of references) and,
--                 in Graph/Audit, verifyWith. Graph/Walks is the invariant of the walk.
--   Trunk         experiments/workbench/src/trunk: foldPage of fold.ts over the carrier of model.ts, and
--                 placementOf of placement.ts.
--   Tests         a concrete hex codec and digest, and runs of the model.
--
-- Conventions: a byte array is a list of natural numbers, and what a Uint8Array keeps of a number is
-- its remainder by 256. An identifier is its text, a list of character codes. An Effect is a function
-- from the world to a result and the world; a failed effect keeps what it wrote before. Error values
-- keep their class and data, and their prose only by its occasion. The digest is a parameter: no law
-- of it is assumed but that its answers are identifiers, and where two contents share an address the
-- code's collision branch is what the model runs.
-- A bigint of the source is a natural number, so the refusal of a negative offset or length of a range has
-- no counterpart. The defect of a missing leaf is an error of the model that no error channel declares.
--
-- Fuel: drainFrom recurs without a bound in the source. drain_from takes the number of rounds; one more
-- than the receipts of the word is enough, since every round but the last advances the mark. pow2_below
-- takes one round more than its number, which halves each time, and build_tree takes the number of
-- leaves, since each half is smaller than the whole. The walk of a blob takes as many as its manifest
-- counts leaves, and the loop of put over a part as many as the part has bytes, since a round takes one
-- or more. closure and verify_with take the number of iterations, and answer none where it is too
-- small. An iteration visits a reference or ends a frame, so for the closure twice the most references of
-- a node and one, times the nodes and one, is enough.
--
-- Not modelled: Layer and service wiring, the SHA-256 adapter, the graph structure of the effect package
-- (whose post-order verify_with takes as a parameter), the SQL and file realizations of the word log and
-- the backends, the HTTP transport, the schema engine, the client libraries, the command line beyond the
-- drain, and the decode door and the pixels of the workbench.
pub mod Base
pub mod Node
pub mod Codec
pub mod Admission
pub mod Backend
pub mod Graph
pub mod WordLog
pub mod Store
pub mod Wire
pub mod Server
pub mod Blob
pub mod Trunk
mod Tests
