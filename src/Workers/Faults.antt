-- ===== src/Workers/Faults.antt =====
-- trackr_app/workers.py: what holds of a turn's handlers and of its work holds of the turn.
use summer_intern.Prelude.{◌≡◌, refl, String}
use summer_intern.Workers.Group.{Alerted}
use summer_intern.Workers.Turns.{
  Fault, no_fault, fails_reading, fails_claiming, fails_completing, on_reading, on_claiming,
  on_completing,
}

module _ (P : Alerted → Type 0) (run : Alerted) where
  pub on_reading-Holds :
      (fault : Fault) (handled : Alerted) → P handled → P run → P (on_reading fault handled run)
  unfolding on_reading
  on_reading-Holds no_fault handled h k = k
  on_reading-Holds (fails_reading error) handled h k = h
  on_reading-Holds (fails_claiming error) handled h k = k
  on_reading-Holds (fails_completing error) handled h k = k

  pub on_claiming-Holds :
      (fault : Fault) (handled : String → Alerted)
      → ((error : String) → P (handled error))
      → P run
      → P (on_claiming fault handled run)
  unfolding on_claiming
  on_claiming-Holds no_fault handled h k = k
  on_claiming-Holds (fails_reading error) handled h k = k
  on_claiming-Holds (fails_claiming error) handled h k = h error
  on_claiming-Holds (fails_completing error) handled h k = k

  pub on_completing-Holds :
      (fault : Fault) (handled : String → Alerted)
      → ((error : String) → P (handled error))
      → P run
      → P (on_completing fault handled run)
  unfolding on_completing
  on_completing-Holds no_fault handled h k = k
  on_completing-Holds (fails_reading error) handled h k = k
  on_completing-Holds (fails_claiming error) handled h k = k
  on_completing-Holds (fails_completing error) handled h k = h error

module _ (run : Alerted) where
  pub on_reading-calm :
      (fault : Fault) (handled : Alerted) → fault ≡ no_fault → on_reading fault handled run ≡ run
  unfolding on_reading
  on_reading-calm fault handled calm = rw calm refl

  pub on_claiming-calm :
      (fault : Fault) (handled : String → Alerted)
      → fault ≡ no_fault
      → on_claiming fault handled run ≡ run
  unfolding on_claiming
  on_claiming-calm fault handled calm = rw calm refl
