-- ===== src/Tests.antt =====
-- Concrete runs: each theorem of the results at values that the code could meet. The encodings here
-- stand for postcard's, and the signatures for those of hyde and ed25519-dalek.
mod Fixtures
mod WireRuns
mod AcceptorRuns
mod InitiatorRuns
mod MutualFixtures
mod MutualRuns
mod MutualBindingRuns
mod InstitutionRuns
mod SshAgentRuns
mod SessionRuns
mod LoopRuns
mod GateRuns
mod ReplayRuns
mod MutualInstitutionRuns
mod EchoFixtures
mod EchoRuns
mod MutualRefusalRuns
