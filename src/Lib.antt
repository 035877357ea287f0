-- ===== src/Lib.antt =====
-- Tablefolk plays card games between peers that share no server. The parts modelled here are the
-- rules of Sasku, the encoding of values and message bodies, the masking of cards, the setup of a
-- round, the chains of signed envelopes with their witnesses and repair, and the framing of payloads.
--
-- The rules (packages/rules-sasku) know nothing of the network. `cards.ts` and `scoring.ts` are plain
-- functions; `hand.ts` steps a hand from one action to the next with both. A reference hand knows all
-- cards, a public hand none, and `auditSaskuHand` plays one history on both.
-- `decodeSaskuAction` reads an action of the engine as one of the rules. The peers exchange
-- actions in signed envelopes, which `SenderChain` (packages/session) links by hashes, and envelopes
-- travel as frames (packages/transport). `SessionChainRegistry` keeps a chain for each player of the
-- roster.
--
-- Before a round the peers set up a key and a seed together (packages/engine): each sends a share of
-- the key with a proof (packages/deck), then a commitment to a secret, then the secret. The deck is
-- masked under the shared key, so that only all peers together open a card. A peer that lacks envelopes
-- finds out from the witnesses of others, asks for a range and checks the answer before it ingests it.
--
-- Files:
--   Base             lists, options and numbers; a call that throws is a `Result`
--   Sasku/Deck       cards.ts: suits, ranks, the 36 cards, their texts, points and strength
--   Sasku/Tricks     cards.ts: `legalSaskuCards`, `winnerOf`, `resolveSaskuTrick`
--   Sasku/Scoring    scoring.ts: `scoreSaskuHand` and the table `feasiblePoints`
--   Sasku/Hand       hand.ts: State (`HandState`, `normalizeAction`), Auction and Playing (the
--                    branches of `nextState`), Next (`nextState`, the constructors, replay), Audit
--                    (`auditSaskuHand`); the other children hold proofs
--   Sasku/Action     action.ts: `decodeSaskuAction`
--   Protocol/Value, Canonical
--                    packages/encoding/src/value.ts and canonical.ts: `validateValue`,
--                    `normalizeValue`, `encodeCanonical`, `decodeCanonical`
--   Protocol/Schema, Lobby
--                    packages/protocol/src/schema.ts, fields.ts and lobby.ts: the checks on parts of a
--                    body, and the bodies of JOIN, ROSTER and READY
--   Protocol/Hashes, Challenges
--                    packages/protocol/src/domains.ts and hash-inputs.ts: commitments and challenges
--   Protocol/Envelope
--                    packages/protocol/src/envelope.ts: `signEnvelope`, `decodeAndVerifyEnvelope`, and
--                    the checks of packages/crypto/src/ed25519.ts around the library
--   Protocol/Requests, Claims, Violation
--                    packages/protocol/src/sync.ts, witness.ts and violation.ts: the bodies of SYNC_REQ,
--                    SYNC_RESP, WITNESS and VIOLATION
--   Deck/Curve       packages/crypto/src/ristretto.ts: `multiply`; the curve is a parameter
--   Deck/Elgamal, Proofs
--                    packages/deck/src/elgamal.ts and proofs.ts: masking, shares, and their proofs
--   Engine/Beacon    packages/engine/src/randomness-beacon.ts: `RandomnessBeacon`
--   Engine/Setup     packages/engine/src/setup-coordinator.ts: `SetupCoordinator`; its child Seeds has
--                    the calls that go on to the beacon
--   Session/Bytes    packages/crypto/src/bytes.ts: `bytesEqual`, `bytesToHex`
--   Session/Chain    packages/session/src/sender-chain.ts: `SenderChain`
--   Session/Registry packages/session/src/chain-registry.ts: `SessionChainRegistry`
--   Session/Lobby    packages/session/src/lobby-bootstrap.ts: `LobbyChainRegistry`; the children Joins,
--                    Rosters, Readies and Finals have its operations by what they take
--   Session/Equivocation
--                    packages/session/src/equivocation.ts: making and judging evidence
--   Session/Sync     packages/session/src/sync.ts: `preflightSyncResponse`, `applySyncResponse`,
--                    `serveSyncRequest`
--   Session/Witness  packages/session/src/witness.ts and sync-plan.ts: `assessWitness` and the requests
--                    that `planWitnessSyncRequests` makes of it
--   Frames           packages/transport/src/frame.ts: `splitDataFrames`, `normalizeFrame`; its
--                    child Reassembler: `FrameReassembler`, with the clock's reading as an argument
--   Examples         runs on small inputs
--
-- State is passed on: `next_state` takes a hand and gives the next one or the error that the source
-- throws, by class (`SaskuError`), and `ingest` takes a chain and gives the new one with its result.
-- A seat is a native number, as wide as the source's check of it. A card is the pair of rank and suit
-- that its text spells; texts are read where the source reads them. Loops are structural recursion,
-- so no fuel is needed; the bounds are the source's own, such as 64 actions for a hand.
--
-- Third-party code is a parameter: the CBOR library (`Cbor`), the hashes (`Hashing`, `WideHash`), Ed25519
-- (`Signing`) and the curve (`Curve`). What is relied on is stated as `IsCbor`, `IsHashing`, `IsSigning`
-- and `IsCurve`: that the library decodes what it encodes up to the order of a map's keys, which it does
-- not heed in writing; that a digest is 32 bytes; that a signature made with a secret holds under its key;
-- that points are a commutative group of the order. Random numbers are arguments. A value of the model is
-- well-formed text, has no cycle and no sparse array; a number is an integer, and one that is none stands
-- for no value of the model. A map is a list of fields in the order of their insertion.
--
-- Before a session a lobby forms (packages/session): the host proposes a roster, players join it and
-- declare that they are ready, and when all of the roster in force did, the lobby's chains are
-- transferred to a session. Of two envelopes under one number of one chain a player makes evidence, which
-- the others judge against their own rosters.
--
-- Not modelled: checks on the shape of JavaScript values that have no counterpart in a typed model,
-- freezing and copying of objects, messages of errors, the order of a transcript, the recovery of a lobby
-- and of a session from storage, the setup over envelopes and the ledger of reveals, the shuffle and its
-- transcripts, the promise-driven receivers, storage, network transports and the user interface. In
-- Session/Sync the opening of an envelope is a parameter.
pub mod Base
pub mod Sasku
pub mod Protocol
pub mod Deck
pub mod Engine
pub mod Session
pub mod Frames
mod Examples
