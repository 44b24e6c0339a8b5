-- ===== src/Tests.antt =====
-- Runs of the definitions at concrete inputs, and the theorems applied to them.
mod RtpsRuns
mod ProbeRuns
mod SealRuns
mod CompareRuns
mod ScheduleRuns
mod BoardRuns
mod RecoveryRuns
mod PipelineRuns
mod H2bRuns
mod ContractRuns
mod TelemetryRuns
mod CampaignRuns
mod ProtocolRuns
mod EndpointRuns
