-- ===== src/Model/States.antt =====
-- The values of the status columns of trackr_app/models.py, and the tests on them.
use summer_intern.Prelude.{Bool, true, false, ◌||◌}

pub data Status : Type 0 where
  pending processing sent failed cancelled uncertain done synced archived : Status

abbrev pub is_pending : Status → Bool
is_pending pending = true
is_pending _ = false

abbrev pub is_processing : Status → Bool
is_processing processing = true
is_processing _ = false

abbrev pub is_sent : Status → Bool
is_sent sent = true
is_sent _ = false

abbrev pub is_failed : Status → Bool
is_failed failed = true
is_failed _ = false

abbrev pub is_cancelled : Status → Bool
is_cancelled cancelled = true
is_cancelled _ = false

-- `status in ('pending', 'processing')`.
abbrev pub is_unfinished : Status → Bool
is_unfinished s = is_pending s || is_processing s
