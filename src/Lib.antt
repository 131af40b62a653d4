-- ===== src/Lib.antt =====
-- Carbon Club (dsh-carbonclub): a chat hall that peers derive from signed events. Every node keeps a
-- ledger of the events that it accepted, and computes from them, for a time, who sits in the eight
-- seats, who waits in the queue and which messages were heard. The browser panel shows that hall.
--
-- The repository holds the TypeScript sources under src/ and, under lib/, the JavaScript that the
-- package ships, compiled from them function by function under the same names. A definition here
-- follows one function of both.
--
-- - Base: shared names, Boolean tests, lists, `Map`s in insertion order (Base/Dict), the stable sort
--   (Base/Sort), sums (Base/Total), lists of keys and the pigeonhole principle (Base/Keys).
-- - Rules: the constants of src/network/hall-rules.ts, room-events.ts and node.ts, in milliseconds.
-- - Types: the records of src/network/types.ts.
-- - Hall: `derive` of src/network/room-events.ts. Hall/Defs has the state and what time does to it
--   (`fillSeats`, `removeParticipant`, `nextExpiry`, `advance`), Hall/Derive what an event does.
-- - Ledger: the class `RoomEventLedger` of the same file. Ledger/Defs has the state and the pruning,
--   Ledger/Accept the checkpoint and the guards and writes of `accept`, Ledger/Snapshot the snapshot,
--   Ledger/Calls `accept` as a whole, `delta`, `evidence`, `admissionError`, `eventsForSync` and
--   `diagnostics`.
-- - Node: the bookkeeping of `CarbonClubNode` (src/network/node.ts). Node/Limits has the rate limits
--   (`allowInbound`, `allowTransportInbound`, `allowSync`), Node/Peers the peers that a node notes and
--   remembers, its sequence numbers and its choice between a join and a heartbeat, Node/Presence the
--   time of the last join, Node/Admitted the test of `joinHall` on a snapshot, Node/Session `joinHall`,
--   `leaveHall` and `publishHallMessage`, each run through without another call between its awaits.
-- - Transport: the same class with the transport around it. Transport/Defs has the whole state and the
--   listeners of gossip, discovery and identify that `start` adds, Transport/Sync both ends of a sync
--   (the handler that `start` adds and `requestHistory`), Transport/Publish `publishEvent` with its wait
--   for a subscriber and `publishCheckpoint`, Transport/Connect `createInvite`, `connect` and
--   `verifyPeerProtocol`, Transport/Calls a new node, the changes of `start` and
--   `stop`, and the calls of Node/Session on the whole state, Transport/Runs all of them as a step
--   relation.
-- - Relay: scripts/community-relay.mjs, a node that keeps the events of a community and serves them.
--   Relay/Settings has its ceilings, Relay/Defs its handlers of gossip and syncs, Relay/Runs these as a
--   step relation, in which verifications end in any order.
-- - Verify: `verifyRoomEvent` of src/network/room-events.ts. Verify/Values has the untyped values that
--   it reads, Verify/Payloads the checks of a payload, Verify/Events those of a whole event,
--   Verify/Signing how a node signs one (`signEvent`, `mineAdmission`), Verify/Typed the types of
--   src/network/types.ts as a reading of such values.
-- - Machine: src/client/hall-machine.ts, a hall kept by one host, where a seat is offered to the head
--   of the queue and taken by accepting the offer. Machine/Defs has the state and `fillOffers`,
--   Machine/Calls the calls, Machine/Tick `tickHall`, Machine/Runs the calls as a step relation.
-- - Budget: `BoundedSerialQueue` of src/network/resource-budget.ts, which verifies events one by one.
-- - Codec: `Buffer`, `JSON` and `trim` as a parameter, for codes that are base64url behind a prefix.
-- - Identity: src/network/identity.ts, the private key and the peers that a node keeps with its host.
-- - Invite: src/network/invite.ts, the signed codes by which a peer is invited to the hall. Invite/Dial
--   has `assertDialAddress`, Invite/Defs the other functions.
-- - Project: src/network/project-crypto.ts, project rooms whose payloads are encrypted under a key
--   derived from the secret of their invite and from an epoch.
-- - Panel: the browser panel. Panel/Merge has `mergeRoom` of src/client/network-store.ts,
--   Panel/Store the store around it.
--
-- A node keeps one ledger; its calls reach the ledger through `accept` and read it through `snapshot`
-- and `delta`, whose answer the panel merges into the room that it shows. An event that arrives
-- passes the rate limits of its transport, waits in the queue, is verified and read as a typed event,
-- passes the limits of its origin, and only then reaches the ledger. A listener or a call is one step of
-- a node: what comes between the awaits of one call is not split further.
--
-- Times and sequence numbers are natural numbers; a comparison of a difference with a bound is
-- written with a sum, so that nothing stops at 0. A JavaScript array is a list, a `Map` or a record
-- used as one is an association list in insertion order, a `Set` is one with no values. A function
-- that mutates its state returns the new one. `localeCompare`, the order of `sort()` on texts and the
-- hash of a canonical state are the record `Engine` or a parameter: nothing is assumed of them. Codecs,
-- ciphers and signatures are parameters too; where a code or a payload is to come back, a theorem assumes
-- that decoding undoes encoding (`JSON.parse` what `JSON.stringify` did), that decrypting undoes
-- encrypting and that a signature verifies. What `randomBytes` returns is an argument, and so is what
-- libp2p does: the chunks that a stream gives, whom a publication reaches, what dialling comes to.
--
-- The loops that the source ends by a test run here on fuel: `advance` on the number of participants,
-- since each round removes one; `prune` on the number of events, `pruneSequenceOrigins` on the number
-- of marks and `rememberPeer` on the number of peers, since each round removes one. `mineAdmission` runs
-- for a given number of rounds, enough where a smaller nonce is a proof; the source ends at 2 ^ 53 - 1.
--
-- Not modelled: libp2p itself and its timers, the reports of `status`, `drained`, the arithmetic of
-- signatures and hashes, React components, styles and texts, build and test scripts; of the relay its
-- key file and review server.
pub mod Base
pub mod Rules
pub mod Types
pub mod Hall
pub mod Ledger
pub mod Node
pub mod Panel
pub mod Verify
pub mod Machine
pub mod Budget
pub mod Codec
pub mod Identity
pub mod Invite
pub mod Project
pub mod Transport
pub mod Relay
