-- ===== src/Loop/Calls.antt =====
-- The calls on one task of tx_loop.cpp, and those on the loop itself, under the invariant.
use libtx.Common.{
  ℕ, ◌≡◌, refl, true, false, not, ◌&&◌, Option, none, some, arith, Bool-cases, inl, inr,
}
use libtx.Loop.{
  TxTask, TxLoop, TaskFlags, task, set_flags, flags_of, tx_loop_new, tx_task_init, tx_task_mark,
  drop_task, tx_task_drop, enqueue, tx_task_active, tx_loop_break, tx_loop_stop,
}
use libtx.Loop.Queues.{has-insert, Distinct-insert, ends_tailer-insert}
use libtx.Loop.Invariant.{InQueues, Inv, Detached, idle-Detached, unlink-Detached, drop_task-Inv}
use libtx.Loop.Activity.{update-Activity, same-Activity, insert-Activity}

-- Bits TASK_PENDING and TASK_USER_MARK do not matter to the invariant.
pub set_flags-Inv :
    {s : TxLoop} (p : ℕ) (f : TaskFlags)
    → Inv s
    → f.idle ≡ (flags_of s p).idle
    → f.busy ≡ (flags_of s p).busy
    → Inv (set_flags p f s)
set_flags-Inv {s} p f v i b = record {
  queues = record {
    ends = v.queues.ends;
    once = v.queues.once;
    once_waiting = v.queues.once_waiting;
    real = v.queues.real;
    queued = λ a h. ground (arith, v.queues.queued a);
    waiting = λ q a h. (ground (arith, v.queues.waiting q a), (v.queues.waiting q a h).1);
    one_wait = v.queues.one_wait;
    busy_queued = λ a h. ground (arith, v.queues.busy_queued a);
  };
  activity = same-Activity p (record (s.tasks p) { tx_flags = f }) b v.activity;
}

-- After the drop the task is idle, not busy, and in no queue.
pub drop_task-Detached : {s : TxLoop} (p : ℕ) → InQueues s → Detached p (drop_task p s)
unfolding drop_task
drop_task-Detached {s} p v = elim (Bool-cases (flags_of s p).idle) [
  | inl e ↦ rw (e, drop_task) (idle-Detached p v e)
  | inr e ↦
      let d = unlink-Detached p s in
      rw (e, drop_task) (record { unqueued = d.unqueued; unrecorded = d.unrecorded })
]

pub drop_task-idle : (p : ℕ) (s : TxLoop) → (flags_of (drop_task p s) p).idle ≡ true
unfolding drop_task
drop_task-idle p s = ground arith

enqueue-InQueues :
    {s : TxLoop} (p reason : ℕ) → InQueues s → Detached p s → InQueues (enqueue p reason s)
unfolding enqueue
enqueue-InQueues {s} p reason v d = record {
  ends = ends_tailer-insert p s.tx_taskq v.ends;
  once = Distinct-insert (task p) s.tx_taskq v.ends v.once d.unqueued;
  once_waiting = v.once_waiting;
  real = v.real;
  queued = λ a h. ground (arith, has-insert (task p) (task a) s.tx_taskq v.ends, v.queued a);
  waiting = λ q a h. (
    ground (arith, v.waiting q a, d.unrecorded q),
    ground (arith, has-insert (task p) (task a) s.tx_taskq v.ends, v.waiting q a, d.unrecorded q),
  );
  one_wait = v.one_wait;
  busy_queued =
      λ a h. ground (arith, has-insert (task p) (task a) s.tx_taskq v.ends, v.busy_queued a);
}

pub enqueue-Inv : {s : TxLoop} (p reason : ℕ) → Inv s → Detached p s → Inv (enqueue p reason s)
unfolding enqueue
enqueue-Inv {s} p reason v d = record {
  queues = enqueue-InQueues p reason v.queues d;
  activity = insert-Activity p _ d.unqueued v.activity;
}

pub tx_task_drop-Inv : {s : TxLoop} (p : Option ℕ) → Inv s → Inv (tx_task_drop p s)
unfolding tx_task_drop
tx_task_drop-Inv none v = v
tx_task_drop-Inv (some p) v = drop_task-Inv p v

pub tx_task_active-Inv :
    {s : TxLoop} (p : Option ℕ) (reason : ℕ) → Inv s → Inv (tx_task_active p reason s)
unfolding tx_task_active
tx_task_active-Inv none reason v = v
tx_task_active-Inv {s} (some p) reason v =
    elim (Bool-cases (not s.tx_stop && not (flags_of s p).busy)) [
      | inl e ↦ rw (e) (enqueue-Inv p reason (drop_task-Inv p v) (drop_task-Detached p v.queues))
      | inr e ↦ rw (e) v
    ]

pub tx_task_mark-Inv : {s : TxLoop} (p : ℕ) → Inv s → Inv (tx_task_mark p s)
unfolding tx_task_mark
tx_task_mark-Inv p v = set_flags-Inv p _ v refl refl

-- A task of which a queue or a flag of the program still depends must not be initialised again.
pub tx_task_init-Inv :
    {s : TxLoop} (p call ctx : ℕ) → Inv s → Detached p s → Inv (tx_task_init p call ctx s)
unfolding tx_task_init
tx_task_init-Inv {s} p call ctx v d = record {
  queues = record {
    ends = v.queues.ends;
    once = v.queues.once;
    once_waiting = v.queues.once_waiting;
    real = v.queues.real;
    queued = λ a h. ground (arith, v.queues.queued a, d.unqueued);
    waiting =
        λ q a h. (ground (arith, v.queues.waiting q a, d.unrecorded q), (v.queues.waiting q a h).1);
    one_wait = v.queues.one_wait;
    busy_queued = λ a h. ground (arith, v.queues.busy_queued a, d.unqueued);
  };
  activity = update-Activity p _ d.unqueued v.activity;
}

pub drop_task-busy : {s : TxLoop} (p : ℕ) → InQueues s → (flags_of (drop_task p s) p).busy ≡ false
unfolding drop_task
drop_task-busy {s} p v = ground (arith, v.queued p, v.busy_queued p)

-- The loop's own flags do not matter to the invariant.
pub tx_loop_break-Inv : {s : TxLoop} → Inv s → Inv (tx_loop_break s)
unfolding tx_loop_break
tx_loop_break-Inv {s} v = record {
  queues =
      let u = v.queues in
      record {
        ends = u.ends;
        once = u.once;
        once_waiting = u.once_waiting;
        real = u.real;
        queued = u.queued;
        waiting = u.waiting;
        one_wait = u.one_wait;
        busy_queued = u.busy_queued;
      };
  activity = v.activity;
}

pub tx_loop_stop-Inv : {s : TxLoop} → Inv s → Inv (tx_loop_stop s)
unfolding tx_loop_stop
tx_loop_stop-Inv {s} v = record {
  queues =
      let u = v.queues in
      record {
        ends = u.ends;
        once = u.once;
        once_waiting = u.once_waiting;
        real = u.real;
        queued = u.queued;
        waiting = u.waiting;
        one_wait = u.one_wait;
        busy_queued = u.busy_queued;
      };
  activity = v.activity;
}

-- A new loop satisfies the invariant, if no task in memory says that it is busy.
pub tx_loop_new-Inv :
    (m : ℕ → TxTask) → ((p : ℕ) → (m p).tx_flags.busy ≡ false) → Inv (tx_loop_new m)
unfolding tx_loop_new
tx_loop_new-Inv m h = record {
  queues = record {
    ends = refl;
    once = (refl, tt);
    once_waiting = λ q. tt;
    real = λ q. (refl, refl);
    queued = λ p e. cc;
    waiting = λ q p e. cc;
    one_wait = λ q r p e f. cc;
    busy_queued = λ p e. cc (h p);
  };
  activity = record { recent = λ e. cc; round = λ e. cc; counted = omega arith };
}
