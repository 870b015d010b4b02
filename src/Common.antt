-- ===== src/Common.antt =====
-- trackr_common.py: the rules that the collector and the application share.
pub mod Dates
pub mod Urls
pub mod Dedup
pub mod Kept
unfoldable pub use Dates.*
unfoldable pub use Urls.*
unfoldable pub use Dedup.*
