-- ===== src/Providers/Tests.antt =====
-- The theorems on providers at a new loop, with a ring at 9 and then a poller at 5.
use libtx.Common.{ℕ, ◌≡◌, refl, true, false, none, some, [], subst}
use mathlib.Core.Option.{some-injective}
use libtx.Common.Int.{pos}
use libtx.Loop.{TxTask, TxLoop, tx_loop_new, tx_task_init, tx_poll_active, insert_before_tailer}
use libtx.Loop.Invariant.{Inv, Detached}
use libtx.Loop.Calls.{tx_loop_new-Inv, tx_task_init-Inv}
use libtx.Loop.Waits.{tx_poll_active-Inv}
use libtx.Timer.{TxTimer, TimerRing, tx_timer_ring_new}
use libtx.Providers.{
  Polls, unset_ops, epoll_ops_table, find_call, existing, create, init_poller, tx_epoll_init, found,
  tx_timer_ring_get,
}
use libtx.Providers.Search.{init_poller-init_poller}
use libtx.Providers.Keeping.{ring_get-epoll_init}

abbrev memory : ℕ → TxTask
memory p = record {
  tx_flags = record { idle = true; busy = false; pending = false; user_mark = false };
  tx_reason = 0;
  tx_data = 0;
  tx_call = 0;
}

abbrev timers : ℕ → TxTimer
timers p = record { idle = true; interval = 0; tx_task = none }

abbrev fresh_loop : TxLoop
fresh_loop = tx_loop_new memory

-- The polling functions of the ring and of the poller are at 100 and 200.
abbrev ring : TimerRing
ring = record {
  tx_st_tick = 1000;
  tx_mi_tick = 1000;
  tx_mi_wheel = 0;
  tx_ma_tick = 1000;
  tx_ma_wheel = 0;
  tx_tm_callout = 9;
  lists = λ _. [];
  timers = timers;
  tx_ticks = 1000;
  loop = tx_poll_active 9 (tx_task_init 9 100 8 fresh_loop);
}

abbrev with_ring : Polls
with_ring = record {
  loop = ring.loop;
  tx_ops = λ _. unset_ops;
  epoll_refcnt = λ _. pos 0;
  poll_fd = λ _. 0;
  port_list = λ _. [];
}

fresh_loop-Inv : Inv fresh_loop
fresh_loop-Inv = tx_loop_new-Inv memory (λ p. refl)

unqueued : (p : ℕ) → Detached p fresh_loop
unfolding tx_loop_new
unqueued p = record { unqueued = refl; unrecorded = λ q. refl }

with_ring-Inv : Inv with_ring.loop
with_ring-Inv = tx_poll_active-Inv 9 (tx_task_init-Inv 9 100 8 fresh_loop-Inv (unqueued 9))

five-Detached : Detached 5 with_ring.loop
unfolding tx_loop_new tx_poll_active tx_task_init insert_before_tailer
five-Detached = record { unqueued = refl; unrecorded = λ q. refl }

init_poller-init_poller_example :
    tx_epoll_init 200 (some 6) (some 4) (tx_epoll_init 200 (some 5) (some 3) with_ring).1
    ≡ (some 5, (tx_epoll_init 200 (some 5) (some 3) with_ring).1)
unfolding tx_epoll_init init_poller existing create find_call tx_loop_new tx_poll_active
    tx_task_init insert_before_tailer
init_poller-init_poller_example =
    init_poller-init_poller epoll_ops_table 200 5 (some 5) (some 3) (some 6) (some 4) with_ring refl

ring_get-epoll_init_example :
    tx_timer_ring_get 7 100 8 1010 timers (tx_epoll_init 200 (some 5) (some 3) with_ring).1.loop
    ≡ found 9
unfolding tx_timer_ring_get find_call tx_timer_ring_new tx_loop_new tx_poll_active tx_task_init
    insert_before_tailer
ring_get-epoll_init_example =
    ring_get-epoll_init 9 100 8 1000 7 8 1010 200 timers timers fresh_loop ring (some 5) (some 3)
      with_ring fresh_loop-Inv (unqueued 9) refl refl refl
      (λ p e.
        (subst (λ q. Detached q with_ring.loop) (some-injective 5 p e) five-Detached).unqueued)
