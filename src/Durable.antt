-- ===== src/Durable.antt =====
-- trackr_app/durable.py: jobs in the table `durable_jobs` whose claims survive the end of a process.
pub mod Enqueue
pub mod Matching
pub mod Batch
pub mod Jobs
pub mod Leases
pub mod Creation
pub mod Creations
pub mod Lifecycle
pub mod Refinement
pub mod Pages
pub mod Progress
pub mod Advances
pub mod Ends
pub mod Alerts
pub mod Attempts
pub mod Passes
pub mod Failures
unfoldable pub use Enqueue.*
unfoldable pub use Matching.*
unfoldable pub use Batch.*
unfoldable pub use Creation.*
unfoldable pub use Creations.*
unfoldable pub use Jobs.*
