-- ===== src/Tests.antt =====
-- Runs on concrete inputs, and each theorem at an input that meets its hypotheses.
mod TurnRuns
mod LockRuns
mod OutboxRuns
mod NavRuns
mod AskRuns
mod QueueRuns
mod RunnerRuns
mod DepRuns
mod TranscriptRuns
mod AdmissionRuns
mod ServiceRuns
mod CodexRuns
mod ClearRuns
mod RouteRuns
mod GitRuns
mod KimiRuns
