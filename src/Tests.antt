-- ===== src/Tests.antt =====
-- Runs at concrete inputs: a database in memory, messages, and the theorems applied to them.
mod LearnerRuns
mod AcceptorRuns
mod ProposerRuns
mod WaitRuns
mod ProfileRuns
mod AnomalyRuns
mod KeptRuns
mod LeaderRuns
mod LedgerRuns
mod WireRuns
mod SystemRuns
mod StartRuns
