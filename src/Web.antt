-- ===== src/Web.antt =====
-- trackr_app/main.py and trackr_app/auth.py: the routes that change the database, from their checks to
-- their answer. Pages are not modelled, but for where a handler leads.
pub mod Access
pub mod SignIn
pub mod Admin
pub mod Choices
pub mod Pages
pub mod Deactivation
pub mod Links
unfoldable pub use Access.*
unfoldable pub use SignIn.*
unfoldable pub use Admin.*
unfoldable pub use Choices.*
unfoldable pub use Pages.*
