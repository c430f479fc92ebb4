-- ===== src/Timer/Tests.antt =====
-- A timer of 100 ticks for each second.
use next_os.Prelude.{ℕ, ◌+◌, ◌*◌, ◌/◌, ◌≤◌, ◌<◌, ◌≡◌, refl, some, List, [], ◌∷◌, take, arith}
use next_os.Timer.{
  Timer, tick, other, Round, timer_sleep_ms, wait_until, after_round, after_wakes, after_wake,
  timer_irq, sleep_target,
}
use next_os.Timer.Sleep.{count_ticks, round_ticks, ticked, timer_sleep_ms-ends}

abbrev timer : Timer
timer = record { tick_count = 7; timer_freq = 100 }

abbrev another : Round
another = record { before = []; wake = other; behind = [] }

-- A tick that comes between the test and the waiting, which goes on to the next one.
abbrev lost : Round
lost = record { before = tick ∷ []; wake = tick; behind = other ∷ [] }

abbrev rounds : List Round
rounds = another ∷ lost ∷ another ∷ []

ticks : count_ticks (tick ∷ []) + round_ticks rounds ≡ 3
unfolding count_ticks round_ticks
ticks = refl

-- A sleep of two ticks that takes three.
overslept : timer_sleep_ms timer 20 (tick ∷ []) rounds ≡ some (record timer { tick_count = 10 })
unfolding timer_sleep_ms wait_until after_round after_wakes after_wake timer_irq sleep_target
overslept = refl

timer_sleep_ms-ends_example :
    (k : ℕ) × (timer_sleep_ms timer 20 (tick ∷ []) rounds
      ≡ some (ticked timer (count_ticks (tick ∷ []) + round_ticks (take k rounds))))
    × (20 * timer.timer_freq / 1000 ≤ count_ticks (tick ∷ []) + round_ticks (take k rounds))
    × ((j : ℕ)
        → j < k
        → count_ticks (tick ∷ []) + round_ticks (take j rounds) < 20 * timer.timer_freq / 1000)
timer_sleep_ms-ends_example =
    timer_sleep_ms-ends timer 20 (tick ∷ []) rounds (omega arith) (omega (arith, ticks))
      (omega (arith, ticks))
