-- ===== src/Tests.antt =====
-- Runs of the code's model at concrete inputs.
mod Samples
mod UtilRuns
mod ProtoRuns
mod SecurityRuns
mod TransferRuns
mod EngineRuns
mod ListenerRuns
mod FrontRuns
mod Writers
mod SessionRuns
mod ProfileRuns
