-- ===== src/Common/Dates.antt =====
-- trackr_common.py, `dates_are_open`, on parsed dates.
use summer_intern.Prelude.{Bool, true, ◌&&◌, Option, none, some, leb}
use summer_intern.Model.{Date}

abbrev pub not_after : Option Date → Date → Bool
not_after none today = true
not_after (some d) today = leb d today

abbrev pub not_before : Option Date → Date → Bool
not_before none today = true
not_before (some d) today = leb today d

unfoldable pub dates_are_open : Option Date → Option Date → Date → Bool
dates_are_open opening closing today = not_after opening today && not_before closing today
