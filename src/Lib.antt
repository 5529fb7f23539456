-- ===== src/Lib.antt =====
-- iroh-hyde-auth: institutional authentication for iroh endpoints. Before two endpoints speak an
-- application protocol, one proves over a connection of its own, by a signature over a transcript
-- with the other's fresh nonce and its own endpoint id, that an institution which the other trusts
-- operates it. In the mutual handshake both do so. Hooks on each endpoint let application
-- connections through only to and from peers for which that has happened.
--
-- The parts, their files here and in the repository:
-- - Error (src/error.rs): the errors and their texts.
-- - Wire (src/wire.rs): constants, messages, `transcript`, `mutual_transcript`, `write_msg` and
--   `read_msg`. What postcard does at a message type is a parameter, `Postcard`.
-- - Util (src/util.rs): `unix_secs`, and the test of an asserted time that src/incoming.rs and
--   src/mutual.rs make in line; `TaskGuard`, over what tokio's `abort` does, a parameter.
-- - Verifier (src/verifier.rs): `Roster` and `HydeVerifier`. Signer (src/signer.rs): `HydeSigner` and
--   `sign_blocking`. The hyde crate is the parameter `Hyde`, by the calls that the code makes.
-- - Incoming (src/incoming.rs): `AuthProtocol` and `IncomingAuthHook`. The set that both share is an
--   argument of each and comes back from `accept`. Incoming/Soundness has what a successful handshake
--   means, each message tied to the bytes that had arrived.
-- - Outgoing (src/outgoing.rs): `OutgoingAuthHook`, `handshake`, and `OutgoingAuthTask` with its loop.
--   `select!` may take any branch that is ready, so a run of the loop is any list of events: a
--   request, the end of a task, the end of the hooks, and the abort by `TaskGuard`, which is the
--   event at which the cancellation takes effect: tokio schedules it when the guard is dropped, and
--   other events may come between.
-- - Mutual (src/mutual.rs): `Shared`, `MutualAuthProtocol` with its `handshake` (`accept_handshake`),
--   the initiator's `handshake`, and `MutualAuthTask`. Its loop runs beside the incoming connections
--   that the router hands to `accept`, which write to the same `Shared`: they are events too.
-- - SshAgent (src/ssh_agent.rs): `Reader`, the agent's client, and `SshVerifier`. The agent behind
--   the socket and ed25519-dalek are parameters.
-- - Session: both ends of one connection. What the peer of each end writes is what the code of the
--   other end has written by then, run on what it has heard; so the handshakes of src/outgoing.rs
--   and src/incoming.rs, and both sides of src/mutual.rs, meet each other and not an assumed peer.
--   Session/Institution and Session/MutualInstitution put a `HydeSigner`, a `HydeVerifier` and a
--   roster on the ends, as the documentation in src/lib.rs and examples/mutual-echo.rs wire them.
-- - Examples (examples/echo-auth.rs, examples/mutual-echo.rs): the echo protocol, the wiring of an
--   endpoint for each handshake (`accept_side`, `connect_with`, `connect_no_auth`, `build_node`), and
--   what `main` does: a connection of the protocol has two ends as in Session. The calls of iroh and
--   tokio that only these programs make are the parameter `Crates`, and what their documentation
--   says of them is the hypothesis `AreDocumented`. `mod echo`, which both programs have in the same
--   words, is modelled once.
-- - Net: what iroh and the operating system give to one handshake. A `World` has the connection's
--   stream, the clock, the random numbers and the close. The peer and the network are a function of
--   the bytes that this side has written, so that a theorem for every `World` is one for every peer,
--   the hostile ones too. Code with `await` and `?` is a do block over `Io`.
-- - Common: lists, byte strings, sets and maps. Tests: concrete runs.
--
-- Bytes are natural numbers, and an integer of the source is a natural number: what the source cuts
-- off (`as u32`, `to_be_bytes`) is written out, and where a 32- or 64-bit type keeps a value small,
-- that is a hypothesis. A set or a map is a list, since nothing iterates over one.
-- Loops are structural recursion, but for the decimal digits of an error's text, which have a fuel
-- of twenty: as many digits as a 64-bit number has.
--
-- Not modelled: that tokio runs the tasks (of `MutualAuthTask::spawn` in src/mutual.rs the model has
-- the publication of the id, not the guard that it returns); the flow control of streams, and a
-- connection of the echo protocol that its client drops while the server still copies, so that a
-- theorem about a call has messages of at most the 1000 bytes that the client reads; poisoned locks
-- of the shared sets and tasks that panic, on which the program panics; the bound of 16 requests on
-- the hooks' channel; logging and Debug implementations; what the programs under examples print, the
-- keys that they generate and their shutdown; tests.
mod Common
pub mod Error
pub mod Net
pub mod Wire
pub mod Util
pub mod Hyde
pub mod Verifier
pub mod Signer
pub mod Incoming
pub mod Outgoing
pub mod Mutual
pub mod SshAgent
pub mod Session
pub mod Examples
pub mod Tests
