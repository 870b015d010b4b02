-- ===== src/Notion.antt =====
-- trackr_app/notion.py: the connections of accounts and the queue of their pages. The service's
-- answers, the cipher and the rendering of a page are parameters.
pub mod Connections
pub mod Syncs
unfoldable pub use Connections.*
unfoldable pub use Syncs.*
