-- ===== src/Model/Clock.antt =====
-- Timestamps and spans in microseconds, the resolution of Python's `datetime`. A comparison with a
-- past moment, `t < now - span`, is written `t + span < now`, which needs no negative number.
use summer_intern.Prelude.{ℕ, ◌*◌, ◌/◌}

abbrev pub Time : Type 0
Time = ℕ

-- Days, counted from the epoch.
abbrev pub Date : Type 0
Date = ℕ

abbrev pub seconds : ℕ → ℕ
seconds n = n * 1000000

abbrev pub minutes : ℕ → ℕ
minutes n = n * 60000000

abbrev pub hours : ℕ → ℕ
hours n = n * 3600000000

abbrev pub days : ℕ → ℕ
days n = n * 86400000000

-- `utcnow().date()`.
abbrev pub date_of : Time → Date
date_of now = now / 86400000000

-- `int(now.timestamp())`.
abbrev pub timestamp : Time → ℕ
timestamp now = now / 1000000
