-- ===== src/Tests.antt =====
-- The theorems at concrete data.
mod Data
mod OfVote
mod OfBroker
mod OfDatabase
mod OfTime
mod OfServer
mod OfProcesses
mod OfBallots
mod OfSteady
mod OfStartup
mod OfDeployment
mod OfSystem
