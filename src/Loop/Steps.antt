-- ===== src/Loop/Steps.antt =====
-- The calls that a program makes on the loop, as a relation between states.
use libtx.Common.{ℕ, Option}
use libtx.Loop.{
  TxLoop, tx_task_init, tx_task_mark, tx_task_drop, tx_task_active, tx_task_record, tx_task_wakeup,
  tx_poll_active, tx_loop_break, tx_loop_stop,
}
use libtx.Loop.Invariant.{Inv, Detached}
use libtx.Loop.Calls.{
  tx_task_init-Inv, tx_task_mark-Inv, tx_task_drop-Inv, tx_task_active-Inv, tx_loop_break-Inv,
  tx_loop_stop-Inv,
}
use libtx.Loop.Waits.{tx_task_record-Inv, tx_task_wakeup-Inv, tx_poll_active-Inv}

-- One call. A task is initialised only while it is in no queue.
pub data Call (s : TxLoop) : TxLoop → Type 0 where
  init : (p call ctx : ℕ) → Detached p s → Call s (tx_task_init p call ctx s)
  mark : (p : ℕ) → Call s (tx_task_mark p s)
  drop : (p : Option ℕ) → Call s (tx_task_drop p s)
  active : (p : Option ℕ) (reason : ℕ) → Call s (tx_task_active p reason s)
  record_in : (q p : ℕ) → Call s (tx_task_record q p s)
  wakeup : (q reason : ℕ) → Call s (tx_task_wakeup q reason s)
  poll : (p : ℕ) → Call s (tx_poll_active p s)
  break_off : Call s (tx_loop_break s)
  stop : Call s (tx_loop_stop s)

-- Any number of calls, one after the other.
pub data Calls (s : TxLoop) : TxLoop → Type 0 where
  no_call : Calls s s
  then_call : {t u : TxLoop} → Calls s t → Call t u → Calls s u

Call-Inv : {s t : TxLoop} → Call s t → Inv s → Inv t
Call-Inv (init p call ctx d) v = tx_task_init-Inv p call ctx v d
Call-Inv (mark p) v = tx_task_mark-Inv p v
Call-Inv (drop p) v = tx_task_drop-Inv p v
Call-Inv (active p reason) v = tx_task_active-Inv p reason v
Call-Inv (record_in q p) v = tx_task_record-Inv q p v
Call-Inv (wakeup q reason) v = tx_task_wakeup-Inv q reason v
Call-Inv (poll p) v = tx_poll_active-Inv p v
Call-Inv break_off v = tx_loop_break-Inv v
Call-Inv stop v = tx_loop_stop-Inv v

pub Calls-Inv : {s t : TxLoop} → Calls s t → Inv s → Inv t
Calls-Inv no_call v = v
Calls-Inv (then_call cs c) v = Call-Inv c (Calls-Inv cs v)
