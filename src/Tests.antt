-- ===== src/Tests.antt =====
-- The theorems at concrete inputs.
pub mod Data
pub mod Access
pub mod Graph
pub mod Queue
pub mod Records
pub mod Events
pub mod Search
pub mod Removal
pub mod Webhooks
pub mod Entry
pub mod Retrieval
pub mod Intake
