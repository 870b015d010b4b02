-- ===== src/Legacy.antt =====
-- trackr_app/legacy.py: the tasks of the CSV collectors, for the shared Notion database and the email
-- addresses that have no account. The adapter's answers and SHA-256 are parameters; the settings are
-- the switches of the environment.
pub mod Queue
pub mod Turns
