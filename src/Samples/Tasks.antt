-- ===== src/Samples/Tasks.antt =====
-- Runs of the legacy tasks of trackr_app/legacy.py, and of the retention of trackr_app/maintenance.py.
use summer_intern.Prelude.{
  ℕ, ◌≡◌, refl, true, false, none, some, List, [], ◌∷◌, nat_eq, ◌==◌, map, String, Option, length,
}
use summer_intern.Model.{Db, LegacyTask, sent, cancelled, days}
use summer_intern.Legacy.Queue.{Switches, enqueue_task}
use summer_intern.Legacy.Turns.{TaskTurn, process_tasks}
use summer_intern.Purge.Tables.{purge}
use summer_intern.Samples.{match_db}

abbrev both : Switches
both = record { notion_enabled = true; email_enabled = true }

abbrev quiet_task : TaskTurn
quiet_task = record {
  before = λ db. db;
  now = 60;
  raises_first = false;
  meanwhile = λ db. db;
  failure = none;
  raises_second = false;
  finished_at = 70;
}

-- A task for an address without an account, asked for twice.
abbrev queued_db : Db
queued_db =
    enqueue_task (λ s. s) 51 "uk" "email" "bob@example.org" "u" "{}" ""
      (enqueue_task (λ s. s) 50 "uk" "email" "bob@example.org" "u" "{}" "" match_db)

task_sent_example :
    map
      (λ (t : LegacyTask). t.status)
      (process_tasks both true "uk"
        (λ s. 0)
        (λ s. false)
        (λ s. quiet_task)
        60
        queued_db).db.legacy_tasks
    ≡ sent ∷ []
unfolding process_tasks enqueue_task summer_intern.Prelude.find summer_intern.Prelude.insert_new
    summer_intern.Prelude.first_where summer_intern.Prelude.save
task_sent_example = refl

-- An address with an account gets the platform's emails.
task_migrated_example :
    map
      (λ (t : LegacyTask). t.status)
      (process_tasks both true "uk"
        (λ s. 0)
        (λ s. false)
        (λ s. quiet_task)
        60
        (enqueue_task
          (λ s. s)
          50
          "uk"
          "email"
          "ada@example.org"
          "u"
          "{}"
          ""
          match_db)).db.legacy_tasks
    ≡ cancelled ∷ []
unfolding process_tasks enqueue_task summer_intern.Prelude.find summer_intern.Prelude.insert_new
    summer_intern.Prelude.first_where summer_intern.Prelude.save
task_migrated_example = refl

-- A sent task is purged when its marker is thirty days old.
task_purged_example :
    (purge
      (λ s. 0)
      (days 31)
      500
      (process_tasks both true "uk"
        (λ s. 0)
        (λ s. false)
        (λ s. quiet_task)
        60
        queued_db).db).legacy_tasks
    ≡ []
unfolding purge process_tasks enqueue_task summer_intern.Prelude.find
    summer_intern.Prelude.insert_new summer_intern.Prelude.first_where summer_intern.Prelude.save
    summer_intern.Prelude.delete_where
task_purged_example = refl
