-- ===== src/Workers.antt =====
-- trackr_app/workers.py: the alerts' emails, at once or as a daily digest. A worker claims an
-- account's alerts, commits, sends one email, and completes the claims that it still holds.
pub mod Claims
pub mod Group
pub mod Turns
pub mod Pass
pub mod Faults
pub mod Delivers
pub mod Sending
pub mod Budget
pub mod Tries
pub mod Passes
pub mod Rows
pub mod Groups
pub mod Permits
pub mod Recipients
pub mod Completion
unfoldable pub use Claims.*
unfoldable pub use Group.*
unfoldable pub use Turns.*
unfoldable pub use Pass.*
