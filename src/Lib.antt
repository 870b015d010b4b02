-- ===== src/Lib.antt =====
-- TrackR alerts: a web application that collects internship offers, matches them with the
-- preferences of invited accounts, and sends alerts and sign-in links from durable queues.
--
-- The parts and their files. Every operation is a function from the tables of the database, the
-- record `Db`, to the new tables; a function that commits several times is one function for each
-- transaction, and what others commit in between is an argument. Times are microseconds, and each
-- reading of the clock is an argument of its own.
--   Model          trackr_app/models.py: a record for each table, a data type for each set of
--                  values of a status, mode, kind or key; JSON columns are the lists and records
--                  that they hold.
--   Operations     trackr_app/operations.py: `next_retry`, `lock_state`.
--   Security       trackr_app/security.py: `expires_in`; SHA-256 and Fernet are the fields of
--                  `Crypto`.
--   Maintenance    trackr_app/maintenance.py: `completed`.
--   Purge          trackr_app/maintenance.py: `purge`; its file Purge holds the deliveries, Tables the
--                  other tables and the whole.
--   AuthMail       trackr_app/auth_mail.py: Jobs holds the rows and tests, Attempt the three
--                  transactions of `process_auth_mail` (`prepare`, `verify`, `finish`), Queue the
--                  pass of `process_auth_queue` and its handlers.
--   Invitations    trackr_app/invitations.py: `deliver_invitation`, and in Passes
--                  `process_invitations`.
--   Limits         trackr_app/limits.py: `_allow` is `allow`, with the HMAC as `digest`.
--   Sources        trackr_app/sources.py: `reserve` and `owned`.
--   Runtime        trackr_app/runtime.py (Leases: `enter` and `leave` are `invocation`) and
--                  scripts/migrate_coordinated.py (Migration), and both as a step relation (System).
--   Sessions       trackr_app/sessions.py: `valid_session`, `current_user`, `create_session`,
--                  `revoke_user_auth`.
--   Passwords      trackr_app/auth.py: `password_login`, `password_reset` and `finish_password`.
--   Forms          trackr_app/http_security.py: the reading and the bound of a form's body; Origin
--                  holds the checks of trackr_app/auth.py on a form's origin and signature.
--   Common         trackr_common.py: `dates_are_open`, `canonical_offer_url`, `offer_key`,
--                  `deduplicate_offers`.
--   Preferences    trackr_app/preferences.py: Matching holds the tests and the query, Reconcile
--                  `reconcile_delivery` and `activate_preference`, Digest `digest_is_due`,
--                  Deferred the activation that leaves a job, Producers `queue_new_offer` and
--                  `queue_notion_update`.
--   Durable        trackr_app/durable.py: Enqueue holds `enqueue_job`, Batch and Matching
--                  `match_batch`, Jobs `process_jobs` for the kind 'match', Creation and Creations
--                  `create_notion` and its pass; Lifecycle is the abstract life of a request that
--                  Refinement relates them to.
--   Workers        trackr_app/workers.py: Claims, Group (`_send_group`), Turns
--                  (`process_immediate_alerts` and `process_digests` for one account) and Pass (the
--                  loop over accounts); the other files hold proofs.
--   Notion         trackr_app/notion.py: Connections holds `save_connection` and
--                  `create_offer_database`, Syncs `process_notion_queue`.
--   Collection     trackr_app/scraper.py: `scrape_all`; Items the loop over a snapshot, Missing
--                  the sources that it does not show, Tracker one source's claim and handler.
--   Legacy         trackr_app/legacy.py: Queue holds `enqueue`, as `enqueue_task`, and the claim and
--                  the end of a task, Turns `process_tasks` and `cancel_legacy_notion_window`.
--   AdminJobs      trackr_app/admin_jobs.py: `failed_jobs` and `retry`.
--   Web            trackr_app/main.py: Access the checks of a request, SignIn links and sign-out,
--                  Admin accounts, Choices preferences, Pages the routes for Notion pages.
--   Browsing       trackr_app/opportunities.py: `browse_opportunities`.
--   Samples        rows and runs at concrete inputs.
-- Sessions and Passwords stand on Security and Limits; AuthMail writes the tokens that Passwords
-- reads; Durable, Workers and Notion read the rows that Preferences writes and call its tests on
-- offers, as Browsing does; Collection writes the offers and the jobs of Durable; Web calls the others
-- from requests, and Purge deletes what they finish; each worker runs inside Runtime's lease.
--
-- Bounds. No loop needs fuel: passes go over the list of due rows that their query gives, at most a
-- hundred, or the batch of a purge, the waiting of a migration over the rounds that its deadline
-- leaves, and the pages of accounts or jobs over the list of turns before the deadline. Integers are
-- Python's, which do not wrap, and are never negative here. Readings of the clock that are moments
-- apart in one transaction of Workers, Notion, Collection, Legacy and Purge are one argument.
--
-- Not modelled: pages, cookies and headers, SMTP, HTTP services, configuration and the command line,
-- which are input and output; the rendering of Notion pages and the recovery of a database, which are
-- parameters; `browse_database`, which browses in SQL; the scrape of the API, CSV files and start
-- terms; the collectors' entry points and one-off reconciliations of trackr_app/legacy.py; schema
-- migrations. A
-- transaction is atomic, and a commit that fails by itself is not modelled. A text that urllib refuses
-- raises in `safe_destination`, and is none here. The labels of logs are left out.
pub mod Prelude
pub mod Model
pub mod Operations
pub mod Security
pub mod Maintenance
pub mod AuthMail
pub mod Limits
pub mod Sources
pub mod Runtime
pub mod Sessions
pub mod Passwords
pub mod Invitations
pub mod Forms
pub mod Purge
pub mod Workers
pub mod AdminJobs
pub mod Browsing
pub mod Collection
pub mod Legacy
pub mod Notion
pub mod Web
pub mod Samples
pub mod Common
pub mod Preferences
pub mod Durable
