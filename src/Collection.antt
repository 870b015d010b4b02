-- ===== src/Collection.antt =====
-- trackr_app/scraper.py: a source's snapshot becomes offers, sources of offers and jobs of matching. What
-- is collected, the revision of an offer and the start term of its categories are parameters.
pub mod Items
pub mod Missing
pub mod Tracker
pub mod Patience
unfoldable pub use Items.*
unfoldable pub use Missing.*
unfoldable pub use Tracker.*
