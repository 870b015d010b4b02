-- ===== src/AuthMail.antt =====
-- trackr_app/auth_mail.py: the durable queue of sign-in and recovery emails.
pub mod Jobs
pub mod Attempt
pub mod Budget
pub mod Claims
pub mod Leases
pub mod Messages
pub mod Queue
pub mod Deferral
unfoldable pub use Jobs.*
unfoldable pub use Attempt.*
unfoldable pub use Queue.*
