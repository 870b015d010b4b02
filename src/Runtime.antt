-- ===== src/Runtime.antt =====
-- trackr_app/runtime.py and scripts/migrate_coordinated.py: workers hold a row each while they run,
-- and a migration closes the gate and waits for the rows that have not expired.
pub mod Leases
pub mod Migration
pub mod System
pub mod Safety
unfoldable pub use Leases.*
unfoldable pub use Migration.*
