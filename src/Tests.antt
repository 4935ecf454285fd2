-- ===== src/Tests.antt =====
-- Runs of the modelled code on small inputs, and the theorems at inputs that meet their conditions.
mod Polling
mod PollStore
mod EvidencePack
mod AgentRuns
mod RateLimit
mod MemoryBus
mod Ingestion
mod Governance
mod Trajectory
mod Scoring
mod Release
mod Drift
mod Evaluate
mod HttpClient
mod PollHistory
