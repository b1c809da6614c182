-- ===== src/Timer/Tests.antt =====
-- The theorems on timers at a concrete ring: timer 1 is due in 40 ms, timer 2 in 2 s, timer 3 in 50 s,
-- and timer 1 was set twice.
use libtx.Common.{ℕ, ◌+◌, ◌<◌, ◌^◌, ◌≡◌, refl, true, false, none, [], ◌∷◌, arith}
use libtx.Loop.{tx_loop_new}
use libtx.Timer.{
  TimerRing, TxTimer, minor, major, slow, slot_for, add32, arm, insert_timer, unlink_timer,
  remove_timer, tx_timer_reset, expire_all, minor_loop, major_loop, slow_round, minor_round,
  major_round, sweep, expire_each, expire,
}
use libtx.Timer.Invariant.{Ring}
use libtx.Timer.Arming.{tx_timer_reset-Ring}
use libtx.Timer.Loops.{Caught}
use libtx.Timer.Polling.{slack, expire_all-Caught, expire_all-overdue}
use libtx.Timer.Setting.{IsSetTo, reset-wrapped}

abbrev idle_timers : ℕ → TxTimer
idle_timers p = record { idle = true; interval = 0; tx_task = none }

abbrev new_ring : TimerRing
new_ring = record {
  tx_st_tick = 1000;
  tx_mi_tick = 1000;
  tx_mi_wheel = 0;
  tx_ma_tick = 1000;
  tx_ma_wheel = 0;
  tx_tm_callout = 9;
  lists = λ _. [];
  timers = idle_timers;
  tx_ticks = 1000;
  loop = tx_loop_new (λ p. record {
    tx_flags = record { idle = true; busy = false; pending = false; user_mark = false };
    tx_reason = 0;
    tx_data = 0;
    tx_call = p;
  });
}

new_ring-Ring : Ring new_ring
new_ring-Ring = record {
  ticks = omega arith;
  armed = record {
    placed = λ k q h. cc;
    live = λ k q h. cc;
    bounded = λ k q h. cc;
    one_list = λ j k q h h'. cc;
  };
}

abbrev sample : TimerRing
sample =
    tx_timer_reset 1 40
      (tx_timer_reset 3 50000 (tx_timer_reset 2 2000 (tx_timer_reset 1 60 new_ring)))

sample-Ring : Ring sample
unfolding tx_timer_reset arm insert_timer unlink_timer slot_for
sample-Ring =
    tx_timer_reset-Ring 1 40
      (tx_timer_reset-Ring 3 50000
        (tx_timer_reset-Ring 2 2000 (tx_timer_reset-Ring 1 60 new_ring-Ring (omega arith))
          (omega arith))
        (omega arith))
      (omega arith)

sample_minor : sample.lists (minor 2) ≡ 1 ∷ []
unfolding tx_timer_reset arm insert_timer unlink_timer slot_for remove_timer
sample_minor = refl

sample_slow : sample.lists slow ≡ 3 ∷ []
unfolding tx_timer_reset arm insert_timer unlink_timer slot_for remove_timer
sample_slow = refl

tx_timer_reset-Ring_example : Ring (tx_timer_reset 3 20 sample)
unfolding tx_timer_reset arm insert_timer unlink_timer slot_for
tx_timer_reset-Ring_example = tx_timer_reset-Ring 3 20 sample-Ring (omega arith)

expire_all-Caught_example : Caught 1400 sample (expire_all 1400 sample)
unfolding tx_timer_reset arm insert_timer unlink_timer slot_for
expire_all-Caught_example = expire_all-Caught 1400 sample sample-Ring (omega arith) (omega arith)

-- Timer 2 is still in the major wheel after 400 ms.
expire_all-overdue_example : 1400 < (sample.timers 2).interval + slack (major 2)
unfolding tx_timer_reset arm insert_timer unlink_timer slot_for remove_timer expire_all minor_loop
    major_loop slow_round minor_round major_round sweep expire_each expire
expire_all-overdue_example =
    expire_all-overdue 1400 sample sample-Ring (omega arith) (omega arith) (major 2) 2 refl

-- The wheels at 2^32 + 1000 ms, and the clock at 1000 ms again.
abbrev wrapped : TimerRing
wrapped = record new_ring { tx_mi_tick = 2 ^ 32 + 1000; tx_ma_tick = 2 ^ 32 + 1000 }

reset-wrapped_example : IsSetTo 1 (add32 wrapped.tx_ticks 40) slow (tx_timer_reset 1 40 wrapped)
reset-wrapped_example = reset-wrapped 1 40 wrapped (omega arith) (omega arith) (omega arith)
