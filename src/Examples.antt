-- ===== src/Examples.antt =====
-- Runs of the model at concrete inputs, and the theorems at inputs that meet their hypotheses.
mod Codec
mod LogRuns
mod ServerRuns
mod ReplicaRuns
mod ServiceRuns
mod BalancerRuns
mod FileRuns
mod RestartRuns
mod ClusterRuns
mod TruncateRuns
mod AgentRuns
