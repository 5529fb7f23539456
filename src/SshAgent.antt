-- ===== src/SshAgent.antt =====
-- ssh_agent.rs: the ed25519 backend, whose keys a running ssh-agent holds. This module has the
-- reader of the agent's wire format and the framed messages; its children have the signer and the
-- verifier.
pub mod Reader
pub mod Client
pub mod Checks
pub mod Layout
pub mod Answers
pub mod Decision
pub mod Session
pub mod Soundness
pub mod RoundTrip
pub mod Failures
