-- ===== src/Tests.antt =====
-- Runs of the program's parts, and the theorems at concrete inputs.
mod Python
mod Agents
mod Costs
mod Home
mod Quotas
mod Registry
mod Samples
mod Resources
mod Operator
mod Slack
mod Worker
mod Supervisor
mod Gateway
mod Permissions
