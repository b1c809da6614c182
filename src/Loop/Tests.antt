-- ===== src/Loop/Tests.antt =====
-- The theorems on the loop at a concrete state: task 5 is active and task 7 waits in queue 3.
use libtx.Common.{ℕ, ◌≡◌, refl, true, false, some, [], ◌∷◌, arith, inl}
use libtx.Loop.{
  TxTask, TxLoop, task, tailer, flags_of, insert_before_tailer, tx_loop_new, tx_task_active,
  tx_task_record, tx_task_wakeup, tx_loop_stop, tx_loop_timeout,
}
use libtx.Loop.Main.{tx_loop_main}
use libtx.Loop.Invariant.{Inv, Detached}
use libtx.Loop.Calls.{tx_loop_new-Inv, tx_task_active-Inv, tx_loop_stop-Inv}
use libtx.Loop.Waits.{tx_task_record-Inv}
use libtx.Loop.Steps.{Calls, no_call, then_call, active}
use libtx.Loop.Ending.{Ends}
use libtx.Loop.Whole.{Resting, tx_loop_main-Ends, timeout-busy}
use libtx.Loop.Activate.{Woken, wakeup-Woken}
use libtx.Loop.Stopped.{wakeup-stopped}

abbrev idle_tasks : ℕ → TxTask
idle_tasks p = record {
  tx_flags = record { idle = true; busy = false; pending = false; user_mark = false };
  tx_reason = 0;
  tx_data = 0;
  tx_call = p;
}

abbrev sample : TxLoop
sample = tx_task_record 3 7 (tx_task_active (some 5) 1 (tx_loop_new idle_tasks))

sample-Inv : Inv sample
sample-Inv =
    tx_task_record-Inv 3 7 (tx_task_active-Inv (some 5) 1 (tx_loop_new-Inv idle_tasks (λ p. refl)))

sample_queue : sample.tx_taskq ≡ task 5 ∷ tailer ∷ []
unfolding tx_task_record tx_task_active tx_loop_new insert_before_tailer
sample_queue = refl

timeout-busy_example : tx_loop_timeout sample 9 ≡ 0
unfolding tx_task_record tx_task_active tx_loop_new insert_before_tailer
timeout-busy_example = timeout-busy sample 9 sample-Inv refl

-- A task that activates itself again each time it is called.
abbrev rerun : ℕ → TxLoop → TxLoop
rerun p s = tx_task_active (some p) 4 s

rerun-Calls : (p : ℕ) (s : TxLoop) → Calls s (rerun p s)
rerun-Calls p s = then_call no_call (active (some p) 4)

abbrev stopped : TxLoop
stopped = tx_loop_stop sample

stopped-Resting : Resting stopped
unfolding tx_task_record tx_task_active tx_loop_new insert_before_tailer tx_loop_stop
stopped-Resting = record { inv = tx_loop_stop-Inv sample-Inv; absent = refl }

tx_loop_main-Ends_example : Ends (tx_loop_main rerun 6 stopped)
unfolding tx_task_record tx_task_active tx_loop_new insert_before_tailer tx_loop_stop
tx_loop_main-Ends_example =
    tx_loop_main-Ends rerun rerun-Calls 6 stopped stopped-Resting (inl refl) (omega arith)

wakeup-Woken_example :
    Woken (sample.waitq 3) sample (tx_task_wakeup 3 2 sample)
    × ((tx_task_wakeup 3 2 sample).waitq 3 ≡ [])
unfolding tx_task_record tx_task_active tx_loop_new insert_before_tailer
wakeup-Woken_example = wakeup-Woken 3 2 sample sample-Inv refl

wakeup-stopped_example :
    Detached 7 (tx_task_wakeup 3 2 stopped)
    × ((flags_of (tx_task_wakeup 3 2 stopped) 7).idle ≡ false)
unfolding tx_task_record tx_task_active tx_loop_new insert_before_tailer tx_loop_stop
wakeup-stopped_example = wakeup-stopped 3 2 7 stopped (tx_loop_stop-Inv sample-Inv) refl refl
