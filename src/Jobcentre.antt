-- ===== src/Jobcentre.antt =====
-- jobcentre/jobcentre.go: the goroutine `internal`, which owns the queues, the jobs and the clients
-- that wait. A message is handled as a whole before the next one.
pub mod Types
pub mod Requests
pub mod Disconnect
pub mod Internal
pub mod Ids
pub mod Invariant
pub mod Release
pub mod Connections
pub mod Replies
pub mod Preservation
pub mod Priority
pub mod Defects
pub mod Counter
pub mod Fresh
pub mod Handler
pub mod Presence
pub mod Service
mod Tests
