-- ===== src/Timer/Sleep.antt =====
-- `timer_sleep_ms` of kernel/drivers/timer.c.
use next_os.Prelude.{
  ℕ, zero, suc, ◌+◌, ◌*◌, ◌/◌, ◌%◌, ◌≤◌, ◌<◌, ◌≡◌, refl, sym, ap, ◌∙◌, true, false, Option, some,
  List, [], ◌∷◌, ltb, take, arith,
}
use mathlib.Core.Path.{subst}
use native.Mathlib.Decide.{dec_lt}
use next_os.Prelude.Words.{word_mod}
use next_os.Timer.{
  Timer, timer_irq, sleep_target, Wake, tick, other, after_wake, after_wakes, Round, after_round,
  wait_until, timer_sleep_ms,
}

-- The number of ticks among some interrupts.
unfoldable pub count_ticks : List Wake → ℕ
count_ticks [] = 0
count_ticks (tick ∷ ws) = suc (count_ticks ws)
count_ticks (other ∷ ws) = count_ticks ws

-- The number of ticks in some rounds.
unfoldable pub round_ticks : List Round → ℕ
round_ticks [] = 0
round_ticks (r ∷ rs) =
    count_ticks r.before + count_ticks (r.wake ∷ []) + count_ticks r.behind + round_ticks rs

-- A timer whose count is `n` further.
abbrev pub ticked : Timer → ℕ → Timer
ticked t n = record t { tick_count = t.tick_count + n }

ticked_as : (t : Timer) (m n : ℕ) → m ≡ t.tick_count + n → record t { tick_count = m } ≡ ticked t n
ticked_as t m n same = ap (λ k. record t { tick_count = k }) same

after_wakes-ticked :
    (ws : List Wake) (t : Timer)
    → t.tick_count + count_ticks ws < word_mod
    → after_wakes ws t ≡ ticked t (count_ticks ws)
unfolding after_wakes after_wake timer_irq count_ticks
after_wakes-ticked [] t small = ticked_as t t.tick_count 0 (omega arith)
after_wakes-ticked (tick ∷ ws) t small =
    let next : (t.tick_count + 1) % word_mod ≡ t.tick_count + 1 = omega arith in
    after_wakes-ticked ws (timer_irq t) (omega (arith, next))
    ∙ ticked_as t ((t.tick_count + 1) % word_mod + count_ticks ws) (suc (count_ticks ws))
        (omega (arith, next))
after_wakes-ticked (other ∷ ws) t small = after_wakes-ticked ws t small

after_round-ticked :
    (r : Round) (t : Timer)
    → t.tick_count + round_ticks (r ∷ []) < word_mod
    → after_round r t ≡ ticked t (round_ticks (r ∷ []))
unfolding after_round round_ticks after_wakes
after_round-ticked r t small =
    ap (λ q. after_wakes r.behind (after_wake r.wake q))
      (after_wakes-ticked r.before t (omega arith))
    ∙ ap (after_wakes r.behind)
        (after_wakes-ticked (r.wake ∷ []) (ticked t (count_ticks r.before)) (omega arith))
    ∙ after_wakes-ticked r.behind
        (ticked (ticked t (count_ticks r.before)) (count_ticks (r.wake ∷ []))) (omega arith)
    ∙ ticked_as t _ _ (omega arith)

-- The loop ends at its first test that finds the target reached, behind `k` rounds.
pub record EndsAfter (t : Timer) (target : ℕ) (rs : List Round) (k : ℕ) (result : Option Timer)
    : Type 0 where
  pub ended : result ≡ some (ticked t (round_ticks (take k rs)))
  pub reached : target ≤ t.tick_count + round_ticks (take k rs)
  pub not_before : (j : ℕ) → j < k → t.tick_count + round_ticks (take j rs) < target

nothing_ticks : round_ticks [] ≡ 0
unfolding round_ticks
nothing_ticks = refl

stops_at :
    (target : ℕ) (rs : List Round) (t : Timer)
    → target ≤ t.tick_count
    → EndsAfter t target rs 0 (wait_until target rs t)
unfolding wait_until round_ticks
stops_at target [] t past =
    let test : ltb t.tick_count target ≡ false = ground arith in
    record {
      ended = rw test (ap some (ticked_as t t.tick_count 0 (omega arith)));
      reached = omega arith;
      not_before = λ j none_before. absurd (omega arith);
    }
stops_at target (r ∷ rs) t past =
    let test : ltb t.tick_count target ≡ false = ground arith in
    record {
      ended = rw test (ap some (ticked_as t t.tick_count 0 (omega arith)));
      reached = omega arith;
      not_before = λ j none_before. absurd (omega arith);
    }

-- The ticks of the first rounds, with one more in front.
round_ticks-cons :
    (r : Round) (rs : List Round) → round_ticks (r ∷ rs) ≡ round_ticks (r ∷ []) + round_ticks rs
unfolding round_ticks
round_ticks-cons r rs = omega arith

not_before_cons :
    (target : ℕ) (r : Round) (rs : List Round) (t : Timer) (k : ℕ)
    → t.tick_count < target
    → ((j : ℕ) → j < k → t.tick_count + round_ticks (r ∷ []) + round_ticks (take j rs) < target)
    → (j : ℕ) → j < suc k
    → t.tick_count + round_ticks (take j (r ∷ rs)) < target
unfolding round_ticks
not_before_cons target r rs t k before rest zero lt = omega arith
not_before_cons target r rs t k before rest (suc j) lt = omega (arith, rest j (omega arith))

one_more :
    (target : ℕ) (r : Round) (rs : List Round) (t : Timer) (k : ℕ) (result : Option Timer)
    → t.tick_count < target
    → EndsAfter (ticked t (round_ticks (r ∷ []))) target rs k result
    → EndsAfter t target (r ∷ rs) (suc k) result
one_more target r rs t k result before e = record {
  ended = e.ended ∙ ap some (ticked_as t _ _ (omega (arith, round_ticks-cons r (take k rs))));
  reached = omega (arith, e.reached, round_ticks-cons r (take k rs));
  not_before = not_before_cons target r rs t k before e.not_before;
}

wait_until-goes :
    (target : ℕ) (r : Round) (rs : List Round) (t : Timer)
    → t.tick_count < target
    → wait_until target (r ∷ rs) t ≡ wait_until target rs (after_round r t)
unfolding wait_until
wait_until-goes target r rs t before =
    let test : ltb t.tick_count target ≡ true = ground arith in rw test refl

wait_until-EndsAfter :
    (target : ℕ) (rs : List Round) (t : Timer)
    → t.tick_count + round_ticks rs < word_mod
    → target ≤ t.tick_count + round_ticks rs
    → (k : ℕ) × EndsAfter t target rs k (wait_until target rs t)
wait_until-EndsAfter target [] t small enough =
    (0, stops_at target [] t (omega (arith, enough, nothing_ticks)))
wait_until-EndsAfter target (r ∷ rs) t small enough = elim (dec_lt t.tick_count target) [
  | no past ↦ (0, stops_at target (r ∷ rs) t (omega arith))
  | yes before ↦
      let sum = round_ticks-cons r rs in
      let (k, rest) =
        wait_until-EndsAfter target rs (ticked t (round_ticks (r ∷ []))) (omega (arith, sum))
          (omega (arith, sum)) in
      let step =
        wait_until-goes target r rs t before
        ∙ ap (wait_until target rs) (after_round-ticked r t (omega (arith, sum))) in
      (
        suc k,
        subst (EndsAfter t target (r ∷ rs) (suc k)) (sym step) (
            one_more target r rs t k (wait_until target rs (ticked t (round_ticks (r ∷ [])))) before
              rest),
      )
]

timer_sleep_ms_lem :
    (t : Timer) (ms : ℕ) (early : List Wake) (rs : List Round)
    → ms * t.timer_freq < word_mod
    → t.tick_count + count_ticks early < word_mod
    → t.tick_count + ms * t.timer_freq / 1000 < word_mod
    → timer_sleep_ms t ms early rs
      ≡ wait_until (t.tick_count + ms * t.timer_freq / 1000) rs (ticked t (count_ticks early))
unfolding timer_sleep_ms sleep_target
timer_sleep_ms_lem t ms early rs product count small =
    let product_kept : ms * t.timer_freq % word_mod ≡ ms * t.timer_freq = omega arith in
    let target : (t.tick_count + ms * t.timer_freq / 1000) % word_mod
        ≡ t.tick_count + ms * t.timer_freq / 1000 =
      omega arith in
    rw (product_kept, target, after_wakes-ticked early t count) refl

-- `timer_sleep_ms`, whenever the interrupts come between its tests and its waiting for one, ends as soon
-- as a test finds that the timer has ticked ms * frequency / 1000 times since the target was computed:
-- behind `k` rounds if the ticks in front of and in all of the rounds are as many, where the count
-- went on by the ticks that came up to there, as many or more, and where those up to each earlier test
-- were fewer. Neither that product nor the count reaches 2^64.
pub timer_sleep_ms-ends :
    (t : Timer) (ms : ℕ) (early : List Wake) (rs : List Round)
    → ms * t.timer_freq < word_mod
    → t.tick_count + (count_ticks early + round_ticks rs) < word_mod
    → ms * t.timer_freq / 1000 ≤ count_ticks early + round_ticks rs
    → (k : ℕ) × (timer_sleep_ms t ms early rs
        ≡ some (ticked t (count_ticks early + round_ticks (take k rs))))
      × (ms * t.timer_freq / 1000 ≤ count_ticks early + round_ticks (take k rs))
      × ((j : ℕ) → j < k → count_ticks early + round_ticks (take j rs) < ms * t.timer_freq / 1000)
timer_sleep_ms-ends t ms early rs product count enough =
    let (k, e) =
      wait_until-EndsAfter (t.tick_count + ms * t.timer_freq / 1000) rs
        (ticked t (count_ticks early)) (omega arith) (omega arith) in
    (
      k,
      timer_sleep_ms_lem t ms early rs product (omega arith) (omega arith)
          ∙ e.ended
          ∙ ap some (ticked_as t _ _ (omega arith)),
      omega (arith, e.reached),
      λ j lt. omega (arith, e.not_before j lt),
    )
