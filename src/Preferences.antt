-- ===== src/Preferences.antt =====
-- trackr_app/preferences.py: which offers an account wants, and what its alerts become when its
-- preferences change.
pub mod Matching
pub mod Query
pub mod Digest
pub mod Reconcile
pub mod History
pub mod Deferred
pub mod Producers
unfoldable pub use Matching.*
unfoldable pub use Digest.*
unfoldable pub use Reconcile.*
