-- ===== src/Loop.antt =====
-- tx_loop.cpp and include/tx_loop.h: tasks, the task queue of a loop, and the main loop; with
-- tx_poll.cpp, whose polls are tasks too.
--
-- A task is a number, its address. `TxLoop` is the `tx_loop_t` together with what it works on: the
-- memory of the tasks and the wait queues (`tx_task_q`) of its users. There is one loop, so the
-- field `tx_loop` of a task is left out. A queue is the sequence of its elements, first to last.
pub mod Activate
pub mod Activity
pub mod Calls
pub mod Invariant
pub mod Main
pub mod Ending
pub mod Phony
pub mod Queues
pub mod Progress
pub mod Rounds
pub mod Steps
pub mod Stopped
mod Tests
pub mod Waits
pub mod Whole
use libtx.Common.{
  ℕ, zero, suc, ◌+◌, ◌-◌, ◌*◌, ◌%◌, ◌^◌, Bool, true, false, not, ◌&&◌, ◌||◌, Option, none, some,
  List, [], ◌∷◌, ◌==◌, if◌then◌else◌, update,
}
use libtx.Common.Int.{ℤ, pos, inc, dec, is_positive}

-- TASK_IDLE, TASK_BUSY, TASK_PENDING and TASK_USER_MARK: the bits of `tx_flags`.
pub record TaskFlags : Type 0 where
  pub idle : Bool
  pub busy : Bool
  pub pending : Bool
  pub user_mark : Bool

pub record TxTask : Type 0 where
  pub tx_flags : TaskFlags
  pub tx_reason : ℕ
  pub tx_data : ℕ
  pub tx_call : ℕ

-- What a `tx_task_q` links: a task, the `phony` task of `tx_loop_main`, or the loop's `tx_tailer`.
pub data Ref : Type 0 where
  task : ℕ → Ref
  phony : Ref
  tailer : Ref

abbrev pub ref_eq : Ref → Ref → Bool
ref_eq (task p) (task q) = p == q
ref_eq phony phony = true
ref_eq tailer tailer = true
ref_eq _ _ = false

pub record TxLoop : Type 0 where
  pub tx_busy : ℕ
  pub tx_stop : Bool
  pub tx_break : Bool
  pub tx_actives : ℤ
  pub tx_upcount : ℤ
  pub tx_holder : Option ℕ
  pub tx_poller : Option ℕ
  pub tx_current : Option ℕ
  pub tx_taskq : List Ref
  pub waitq : ℕ → List Ref
  pub tasks : ℕ → TxTask

-- `LIST_REMOVE (r, entries)`, as it changes one queue.
unfoldable pub list_remove : Ref → List Ref → List Ref
list_remove r [] = []
list_remove r (x ∷ xs) = let rest = list_remove r xs in if ref_eq x r then rest else x ∷ rest

-- `LIST_INSERT_BEFORE (&tx_tailer, r, entries)`.
unfoldable pub insert_before_tailer : Ref → List Ref → List Ref
insert_before_tailer r [] = []
insert_before_tailer r (x ∷ xs) =
    let rest = insert_before_tailer r xs in if ref_eq x tailer then r ∷ x ∷ xs else x ∷ rest

-- A new value for the flags of a task.
abbrev pub set_flags : ℕ → TaskFlags → TxLoop → TxLoop
set_flags p f s = record s { tasks = update s.tasks p (record (s.tasks p) { tx_flags = f }) }

abbrev pub flags_of : TxLoop → ℕ → TaskFlags
flags_of s p = (s.tasks p).tx_flags

-- `LIST_REMOVE (task, entries)`: the element leaves whichever queue it is in.
unfoldable pub unlink : ℕ → TxLoop → TxLoop
unlink p s = record s {
  tx_taskq = list_remove (task p) s.tx_taskq;
  waitq = λ q. list_remove (task p) (s.waitq q);
}

-- `tx_busy |= 1`.
unfoldable pub or_one : ℕ → ℕ
or_one b = b + (1 - b % 2)

-- `tx_busy <<= 1`, on 32 bits.
unfoldable pub shift_left : ℕ → ℕ
shift_left b = b * 2 % 2 ^ 32

-- `tx_loop_new`, where the allocation succeeds; the tasks are what memory holds.
unfoldable pub tx_loop_new : (ℕ → TxTask) → TxLoop
tx_loop_new tasks = record {
  tx_busy = 0;
  tx_stop = false;
  tx_break = false;
  tx_actives = pos 0;
  tx_upcount = pos 0;
  tx_holder = none;
  tx_poller = none;
  tx_current = none;
  tx_taskq = tailer ∷ [];
  waitq = λ _. [];
  tasks = tasks;
}

unfoldable pub tx_task_init : ℕ → ℕ → ℕ → TxLoop → TxLoop
tx_task_init p call ctx s = record s {
  tasks = update s.tasks p (record (s.tasks p) {
    tx_call = call;
    tx_data = ctx;
    tx_flags = record { idle = true; busy = false; pending = false; user_mark = false };
  });
}

unfoldable pub tx_task_mark : ℕ → TxLoop → TxLoop
tx_task_mark p s = set_flags p (record (flags_of s p) { user_mark = true }) s

-- `tx_task_drop` of a task that is not NULL. A `TX_CHECK` only prints.
unfoldable pub drop_task : ℕ → TxLoop → TxLoop
unfolding unlink
drop_task p s =
    if (flags_of s p).idle
    then s
    else set_flags p (record (flags_of s p) { pending = false; busy = false; idle = true })
        (unlink p s)

unfoldable pub tx_task_drop : Option ℕ → TxLoop → TxLoop
unfolding drop_task
tx_task_drop none s = s
tx_task_drop (some p) s = drop_task p s

-- What `tx_task_active` does to a task that is not busy, on a loop that is not stopped.
unfoldable pub enqueue : ℕ → ℕ → TxLoop → TxLoop
unfolding or_one
enqueue p reason s = record s {
  tx_taskq = insert_before_tailer (task p) s.tx_taskq;
  tasks = update s.tasks p (record (s.tasks p) {
    tx_flags = record (flags_of s p) { idle = false; busy = true };
    tx_reason = reason;
  });
  tx_actives = inc s.tx_actives;
  tx_busy = or_one s.tx_busy;
}

unfoldable pub tx_task_active : Option ℕ → ℕ → TxLoop → TxLoop
unfolding tx_task_drop enqueue
tx_task_active none reason s = s
tx_task_active (some p) reason s =
    if not s.tx_stop && not (flags_of s p).busy
    then enqueue p reason (tx_task_drop (some p) s)
    else s

unfoldable pub tx_task_record : ℕ → ℕ → TxLoop → TxLoop
unfolding tx_task_drop
tx_task_record q p s =
    let t = tx_task_drop (some p) s in
    set_flags p (record (flags_of t p) { pending = true; idle = false })
      (record t { waitq = update t.waitq q (task p ∷ t.waitq q) })

-- The round of `LIST_FOREACH_SAFE` for one element of the queue. Only tasks are recorded in a wait
-- queue.
unfoldable pub wakeup_one : ℕ → Ref → TxLoop → TxLoop
unfolding tx_task_active
wakeup_one reason (task p) s =
    tx_task_active (some p) reason (set_flags p (record (flags_of s p) { pending = false }) s)
wakeup_one reason _ s = s

unfoldable pub wakeup_each : ℕ → List Ref → TxLoop → TxLoop
wakeup_each reason [] s = s
wakeup_each reason (r ∷ rs) s = wakeup_each reason rs (wakeup_one reason r s)

-- The loop visits the elements that the queue has at its start, and then the head is emptied.
unfoldable pub tx_task_wakeup : ℕ → ℕ → TxLoop → TxLoop
unfolding wakeup_each
tx_task_wakeup q reason s =
    let t = wakeup_each reason (s.waitq q) s in record t { waitq = update t.waitq q [] }

-- tx_poll.cpp: a poll stays in the queue and is never busy (`tx_busy |= 0`).
unfoldable pub tx_poll_active : ℕ → TxLoop → TxLoop
tx_poll_active p s =
    if not s.tx_stop && (flags_of s p).idle
    then set_flags p (record (flags_of s p) { idle = false })
        (record s { tx_taskq = insert_before_tailer (task p) s.tx_taskq })
    else s

unfoldable pub tx_loop_break : TxLoop → TxLoop
tx_loop_break s = record s { tx_break = true }

unfoldable pub tx_loop_stop : TxLoop → TxLoop
tx_loop_stop s = record s { tx_stop = true }

abbrev holder_allows : Option ℕ → ℕ → ℕ
holder_allows none verify = 10000
holder_allows (some h) verify = if h == verify then 10000 else 0

-- How long a poller may sleep: not at all while a task is active.
unfoldable pub tx_loop_timeout : TxLoop → ℕ → ℕ
tx_loop_timeout s verify =
    if not (s.tx_busy % 4 == 0) && is_positive s.tx_actives
    then 0
    else if s.tx_break
    then 0
    else holder_allows s.tx_holder verify
