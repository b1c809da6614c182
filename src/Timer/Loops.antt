-- ===== src/Timer/Loops.antt =====
-- The three loops of `tx_timer_polling` (tx_timer.cpp), each by itself.
use libtx.Common.{ℕ, zero, suc, ◌+◌, ◌*◌, ◌≤◌, ◌<◌, ◌^◌, ◌≡◌, refl, false, arith, if_cases, ◌∙◌}
use libtx.Timer.{
  TimerRing, has_passed, minor_round, minor_loop, major_round, major_loop, slow_round,
}
use libtx.Timer.Wheel.{le_of_passed, lt_of_not_passed}
use libtx.Timer.Invariant.{Ring}
use libtx.Timer.Rounds.{minor_round-Swept, major_round-Swept, slow_sweep-Swept}

-- `t` is the ring after some rounds at the time `ticks`, from `s`.
pub record Looped (ticks : ℕ) (s t : TimerRing) : Type 0 where
  pub ring : Ring t
  pub clock : t.tx_ticks ≡ ticks
  pub stop : t.loop.tx_stop ≡ s.loop.tx_stop
  pub times : (q : ℕ) → (t.timers q).interval ≡ (s.timers q).interval
  pub spared :
      (q : ℕ)
      → ticks + 15 ≤ (s.timers q).interval
      → (s.timers q).idle ≡ false
      → (t.timers q).idle ≡ false
  pub slow_then : t.tx_st_tick ≡ s.tx_st_tick

pub Looped-refl : {ticks : ℕ} (s : TimerRing) → Ring s → s.tx_ticks ≡ ticks → Looped ticks s s
Looped-refl s r now = record {
  ring = r;
  clock = now;
  stop = refl;
  times = λ q. refl;
  spared = λ q h e. e;
  slow_then = refl;
}

-- The wheels have caught up with the clock.
pub record MinorDone (ticks : ℕ) (s t : TimerRing) : Type 0 where
  pub looped : Looped ticks s t
  pub caught : ticks < t.tx_mi_tick + 15

pub record MajorDone (ticks : ℕ) (s t : TimerRing) : Type 0 where
  pub looped : Looped ticks s t
  pub caught : ticks < t.tx_mi_tick + 15
  pub caught_major : ticks < t.tx_ma_tick + 750

-- All is done for the time `ticks`.
pub record Caught (ticks : ℕ) (s t : TimerRing) : Type 0 where
  pub ring : Ring t
  pub clock : t.tx_ticks ≡ ticks
  pub stop : t.loop.tx_stop ≡ s.loop.tx_stop
  pub times : (q : ℕ) → (t.timers q).interval ≡ (s.timers q).interval
  pub spared :
      (q : ℕ)
      → ticks + 15 ≤ (s.timers q).interval
      → (s.timers q).idle ≡ false
      → (t.timers q).idle ≡ false
  pub minor_done : ticks < t.tx_mi_tick + 15
  pub major_done : ticks < t.tx_ma_tick + 750
  pub slow_done : ticks < t.tx_st_tick + 45000

pub minor_loop-Done :
    (fuel ticks : ℕ) (s : TimerRing)
    → Ring s
    → s.tx_ticks ≡ ticks
    → ticks < s.tx_mi_tick + 15 * fuel
    → MinorDone ticks s (minor_loop fuel ticks s)
unfolding minor_loop
minor_loop-Done zero ticks s r now enough = absurd (omega (arith, r.ticks.mi_past, r.ticks.ma_past))
minor_loop-Done (suc fuel) ticks s r now enough =
    let past : s.tx_mi_tick ≤ ticks = omega (arith, r.ticks.mi_past) in
    let small : ticks < 2 ^ 31 = omega (arith, r.ticks.small) in
    if_cases (MinorDone ticks s) (has_passed ticks s.tx_mi_tick 15)
      (λ e.
        let w =
          minor_round-Swept ticks s r now
            (le_of_passed ticks s.tx_mi_tick 15 past small (omega arith) e) in
        let d =
          minor_loop-Done fuel ticks (minor_round ticks s) w.ring (w.kept.clock ∙ now)
            (omega (arith, w.kept.mi_tick, r.ticks.mi_past, r.ticks.ma_past, r.ticks.small)) in
        record {
          looped = record {
            ring = d.looped.ring;
            clock = d.looped.clock;
            stop = d.looped.stop ∙ w.kept.stop;
            times = λ q. d.looped.times q ∙ w.kept.times q;
            spared = λ q h e.
                d.looped.spared q (omega (arith, w.kept.times q)) (w.kept.spared q (omega arith) e);
            slow_then = d.looped.slow_then ∙ w.kept.st_tick;
          };
          caught = d.caught;
        })
      (λ e. record {
        looped = Looped-refl s r now;
        caught = lt_of_not_passed ticks s.tx_mi_tick 15 past small (omega arith) e;
      })

pub major_loop-Done :
    (fuel ticks : ℕ) (s : TimerRing)
    → Ring s
    → s.tx_ticks ≡ ticks
    → ticks < s.tx_mi_tick + 15
    → ticks < s.tx_ma_tick + 750 * fuel
    → MajorDone ticks s (major_loop fuel ticks s)
unfolding major_loop
major_loop-Done zero ticks s r now caught enough =
    absurd (omega (arith, r.ticks.mi_past, r.ticks.ma_past))
major_loop-Done (suc fuel) ticks s r now caught enough =
    let past : s.tx_ma_tick ≤ ticks = omega (arith, r.ticks.mi_past, r.ticks.ma_past) in
    let small : ticks < 2 ^ 31 = omega (arith, r.ticks.small) in
    if_cases (MajorDone ticks s) (has_passed ticks s.tx_ma_tick 750)
      (λ e.
        let w =
          major_round-Swept ticks s r now caught
            (le_of_passed ticks s.tx_ma_tick 750 past small (omega arith) e) in
        let d =
          major_loop-Done fuel ticks (major_round ticks s) w.ring (w.kept.clock ∙ now)
            (omega (arith, w.kept.mi_tick))
            (omega (arith, w.kept.ma_tick, r.ticks.mi_past, r.ticks.ma_past, r.ticks.small)) in
        record {
          looped = record {
            ring = d.looped.ring;
            clock = d.looped.clock;
            stop = d.looped.stop ∙ w.kept.stop;
            times = λ q. d.looped.times q ∙ w.kept.times q;
            spared = λ q h e.
                d.looped.spared q (omega (arith, w.kept.times q)) (w.kept.spared q (omega arith) e);
            slow_then = d.looped.slow_then ∙ w.kept.st_tick;
          };
          caught = d.caught;
          caught_major = d.caught_major;
        })
      (λ e. record {
        looped = Looped-refl s r now;
        caught = caught;
        caught_major = lt_of_not_passed ticks s.tx_ma_tick 750 past small (omega arith) e;
      })

pub slow_round-Done :
    (ticks : ℕ) (s : TimerRing)
    → Ring s
    → s.tx_ticks ≡ ticks
    → ticks < s.tx_mi_tick + 15
    → ticks < s.tx_ma_tick + 750
    → Caught ticks s (slow_round ticks s)
unfolding slow_round
slow_round-Done ticks s r now caught caught' =
    let small : ticks < 2 ^ 31 = omega (arith, r.ticks.small) in
    let past : s.tx_st_tick ≤ ticks = omega (arith, r.ticks.st_past) in
    if_cases (Caught ticks s) (has_passed ticks s.tx_st_tick 45000)
      (λ e.
        let w = slow_sweep-Swept ticks s r now caught' in
        record {
          ring = w.ring;
          clock = w.kept.clock ∙ now;
          stop = w.kept.stop;
          times = w.kept.times;
          spared = λ q h e. w.kept.spared q (omega arith) e;
          minor_done = omega (arith, w.kept.mi_tick);
          major_done = omega (arith, w.kept.ma_tick);
          slow_done = omega (arith, w.kept.st_tick);
        })
      (λ e. record {
        ring = r;
        clock = now;
        stop = refl;
        times = λ q. refl;
        spared = λ q h e. e;
        minor_done = caught;
        major_done = caught';
        slow_done = lt_of_not_passed ticks s.tx_st_tick 45000 past small (omega arith) e;
      })
