-- ===== src/Timer.antt =====
-- kernel/drivers/timer.c, the timer. The ports that `timer_init` writes are a list, in order.
pub mod Sleep
mod Tests
use next_os.Prelude.{
  ℕ, zero, suc, ◌+◌, ◌*◌, ◌/◌, ◌%◌, ◌^◌, Bool, true, false, Option, none, some, List, [], ◌∷◌, ltb,
  ◌==◌, if◌then◌else◌,
}
use next_os.Prelude.Words.{word_mod}
use next_os.Prelude.Outcome.{Outcome, fault, error, done}

pub record Timer : Type 0 where
  pub tick_count : ℕ
  pub timer_freq : ℕ

unfoldable pub timer_irq : Timer → Timer
timer_irq t = record t { tick_count = (t.tick_count + 1) % word_mod }

-- `timer_init`: the new state and the writes, each a port and a byte. A frequency of 0 divides by 0.
unfoldable pub timer_init : Timer → ℕ → Outcome (Timer × List (ℕ × ℕ))
timer_init t freq_hz =
    let divisor = 1193180 / freq_hz in
    if freq_hz == 0
    then fault
    else done (
      record t { timer_freq = freq_hz },
      (0x43, 0x36) ∷ (0x40, divisor % 256) ∷ (0x40, divisor / 256 % 256) ∷ [],
    )

unfoldable pub sleep_target : Timer → ℕ → ℕ
sleep_target t ms = (t.tick_count + ms * t.timer_freq % word_mod / 1000) % word_mod

-- An interrupt that comes: that of the timer, or another.
pub data Wake : Type 0 where
  tick other : Wake

unfoldable pub after_wake : Wake → Timer → Timer
after_wake tick t = timer_irq t
after_wake other t = t

unfoldable pub after_wakes : List Wake → Timer → Timer
after_wakes [] t = t
after_wakes (w ∷ ws) t = after_wakes ws (after_wake w t)

-- The interrupts of a round of the loop of `timer_sleep_ms`: those between the test and `hlt`, which
-- do not wake the processor from it, the one that does, and those from there to the next test.
pub record Round : Type 0 where
  pub before : List Wake
  pub wake : Wake
  pub behind : List Wake

unfoldable pub after_round : Round → Timer → Timer
after_round r t = after_wakes r.behind (after_wake r.wake (after_wakes r.before t))

-- The loop of `timer_sleep_ms`, over the rounds of interrupts; `none` says that it goes on behind
-- them.
unfoldable pub wait_until : ℕ → List Round → Timer → Option Timer
wait_until target [] t = if ltb t.tick_count target then none else some t
wait_until target (r ∷ rs) t =
    let rest = wait_until target rs (after_round r t) in
    if ltb t.tick_count target then rest else some t

-- `timer_sleep_ms`; `early` are the interrupts between the computation of the target and the first
-- test.
unfoldable pub timer_sleep_ms : Timer → ℕ → List Wake → List Round → Option Timer
timer_sleep_ms t ms early rs = wait_until (sleep_target t ms) rs (after_wakes early t)
