-- ===== src/Campaigns/Service.antt =====
-- `CampaignService` (app/campaigns/service.py): durable jobs and the state of a campaign. The methods
-- are actions over the rows of the database; the proofs stand in the children named for them.
pub mod Model
pub mod Action
pub mod Jobs
pub mod Planning
pub mod Experiments
pub mod Settling
pub mod Lifecycle
pub mod Rows
pub mod Frames
pub mod Work
pub mod Execution
pub mod Leasing
pub mod Validity
pub mod Sweeps
pub mod Creation
pub mod Reachability
pub mod Retries
pub mod Stranded
pub mod Cancellation
pub mod Stress
mod Tests
