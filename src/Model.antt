-- ===== src/Model.antt =====
-- trackr_app/models.py: the database's tables. A row is a record with the columns of its class, a
-- table the list of its rows. A nullable column is an `Option`; a column of timestamps counts
-- microseconds, one of dates counts days; the status columns, texts in the source, are `Status`.
mod States
mod Clock
mod Accounts
mod Alerts
mod Queues
pub use States.*
pub use Clock.*
pub use Accounts.*
pub use Alerts.*
pub use Queues.*
use summer_intern.Prelude.{List, []}

-- All the tables of a session `db`.
pub record Db : Type 0 where
  pub users : List User
  pub invitations : List Invitation
  pub auth_mail : List AuthMail
  pub magic_links : List MagicLink
  pub password_tokens : List PasswordToken
  pub user_sessions : List UserSession
  pub oauth_nonces : List OauthNonce
  pub auth_limits : List AuthLimit
  pub preferences : List Preference
  pub offers : List Offer
  pub offer_sources : List OfferSource
  pub user_offers : List UserOffer
  pub deliveries : List Delivery
  pub notion_connections : List NotionConnection
  pub notion_syncs : List NotionSync
  pub worker_states : List WorkerState
  pub legacy_tasks : List LegacyTask
  pub durable_jobs : List DurableJob
  pub source_snapshots : List SourceSnapshot

abbrev pub empty_db : Db
empty_db = record {
  users = [];
  invitations = [];
  auth_mail = [];
  magic_links = [];
  password_tokens = [];
  user_sessions = [];
  oauth_nonces = [];
  auth_limits = [];
  preferences = [];
  offers = [];
  offer_sources = [];
  user_offers = [];
  deliveries = [];
  notion_connections = [];
  notion_syncs = [];
  worker_states = [];
  legacy_tasks = [];
  durable_jobs = [];
  source_snapshots = [];
}
