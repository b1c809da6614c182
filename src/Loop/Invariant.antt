-- ===== src/Loop/Invariant.antt =====
-- The invariant of the loop of tx_loop.cpp, and the removal of a task from its queue.
use libtx.Common.{ℕ, ◌%◌, ◌≡◌, ◌≢◌, true, false, List, arith, ◌∙◌, update, Bool-cases, inl, inr}
use libtx.Common.Int.{ℤ, pos, ◌≤ℤ◌}
use libtx.Loop.{
  TxTask, TxLoop, TaskFlags, Ref, task, phony, tailer, list_remove, set_flags, flags_of, unlink,
  drop_task,
}
use libtx.Loop.Queues.{
  has, Distinct, ends_tailer, after_phony, any_busy, count_busy, has-remove, Distinct-remove,
  ends_tailer-remove, after_phony-remove, any_busy-remove, count_busy-remove, any_busy-update,
  count_busy-update,
}

-- Which queue a task is in: the loop's or one wait queue, at most once in all; a task in a queue is
-- not idle, and a busy task is in the loop's.
pub record InQueues (s : TxLoop) : Type 0 where
  pub ends : ends_tailer s.tx_taskq ≡ true
  pub once : Distinct s.tx_taskq
  pub once_waiting : (q : ℕ) → Distinct (s.waitq q)
  pub real : (q : ℕ) → (has phony (s.waitq q) ≡ false) × (has tailer (s.waitq q) ≡ false)
  pub queued : (p : ℕ) → has (task p) s.tx_taskq ≡ true → (flags_of s p).idle ≡ false
  pub waiting :
      (q p : ℕ)
      → has (task p) (s.waitq q) ≡ true
      → ((flags_of s p).idle ≡ false) × (has (task p) s.tx_taskq ≡ false)
  pub one_wait :
      (q r p : ℕ) → has (task p) (s.waitq q) ≡ true → has (task p) (s.waitq r) ≡ true → q ≡ r
  pub busy_queued : (p : ℕ) → (flags_of s p).busy ≡ true → has (task p) s.tx_taskq ≡ true

-- What `tx_busy` and `tx_actives` say of the busy tasks. Bit 0 of `tx_busy` covers those that came
-- since the phony task last came round, and bits 0 and 1 together all.
pub record Activity (m : ℕ → TxTask) (q : List Ref) (busy : ℕ) (actives : ℤ) : Type 0 where
  pub recent : any_busy m (after_phony q) ≡ true → busy % 2 ≡ 1
  pub round : any_busy m q ≡ true → busy % 4 ≢ 0
  pub counted : pos (count_busy m q) ≤ℤ actives

pub record Inv (s : TxLoop) : Type 0 where
  pub queues : InQueues s
  pub activity : Activity s.tasks s.tx_taskq s.tx_busy s.tx_actives

-- The task is in no queue.
pub record Detached (p : ℕ) (s : TxLoop) : Type 0 where
  pub unqueued : has (task p) s.tx_taskq ≡ false
  pub unrecorded : (q : ℕ) → has (task p) (s.waitq q) ≡ false

pub idle-Detached : {s : TxLoop} (p : ℕ) → InQueues s → (flags_of s p).idle ≡ true → Detached p s
idle-Detached {s} p v e = record {
  unqueued = ground (arith, v.queued p);
  unrecorded = λ q. ground (arith, v.waiting q p);
}

-- A detached task may get any flags but busy ones.
pub set_flags-InQueues :
    {s : TxLoop} (p : ℕ) (f : TaskFlags)
    → InQueues s
    → Detached p s
    → f.busy ≡ false
    → InQueues (set_flags p f s)
set_flags-InQueues p f v d e = record {
  ends = v.ends;
  once = v.once;
  once_waiting = v.once_waiting;
  real = v.real;
  queued = λ a h. ground (arith, v.queued a h, d.unqueued);
  waiting = λ q a h. (ground (arith, v.waiting q a h, d.unrecorded q), (v.waiting q a h).1);
  one_wait = v.one_wait;
  busy_queued = λ a h. ground (arith, v.busy_queued a, d.unqueued);
}

pub unlink-Detached : (p : ℕ) (s : TxLoop) → Detached p (unlink p s)
unfolding unlink
unlink-Detached p s = record {
  unqueued = ground (arith, has-remove (task p) (task p) s.tx_taskq);
  unrecorded = λ q. ground (arith, has-remove (task p) (task p) (s.waitq q));
}

-- What is done to task `p` when it is not idle: it leaves its queue and is marked idle.
abbrev dropped : ℕ → TxLoop → TxLoop
dropped p s =
    set_flags p (record (flags_of s p) { pending = false; busy = false; idle = true }) (unlink p s)

dropped-InQueues : {s : TxLoop} (p : ℕ) → InQueues s → InQueues (dropped p s)
unfolding unlink
dropped-InQueues {s} p v = record {
  ends = ends_tailer-remove p s.tx_taskq v.ends;
  once = Distinct-remove (task p) s.tx_taskq v.once;
  once_waiting = λ q. Distinct-remove (task p) (s.waitq q) (v.once_waiting q);
  real = λ q. (
    has-remove (task p) phony (s.waitq q) ∙ (v.real q).0,
    has-remove (task p) tailer (s.waitq q) ∙ (v.real q).1,
  );
  queued = λ a h. ground (arith, has-remove (task p) (task a) s.tx_taskq, v.queued a);
  waiting = λ q a h. (
    ground (arith, has-remove (task p) (task a) (s.waitq q), v.waiting q a),
    ground (
      arith,
      has-remove (task p) (task a) (s.waitq q),
      has-remove (task p) (task a) s.tx_taskq,
      v.waiting q a,
    ),
  );
  one_wait = λ q r a h k. ground (
    arith,
    has-remove (task p) (task a) (s.waitq q),
    has-remove (task p) (task a) (s.waitq r),
    v.one_wait q r a,
  );
  busy_queued = λ a h. ground (arith, has-remove (task p) (task a) s.tx_taskq, v.busy_queued a);
}

-- Of the bits and the count nothing is taken back when a task leaves the queue, so they still
-- cover what is left.
remove-Activity :
    {m : ℕ → TxTask} {q : List Ref} {b : ℕ} {a : ℤ} (p : ℕ) (t : TxTask)
    → Activity m q b a
    → Activity (update m p t) (list_remove (task p) q) b a
remove-Activity {m} {q} p t v = record {
  recent = λ h. v.recent (any_busy-remove m (task p) (after_phony q) (rw (fresh_after) at h));
  round = λ h. v.round (any_busy-remove m (task p) q (rw fresh at h));
  counted = omega (arith, count_busy-remove m (task p) q, fresh_count, v.counted);
}
  where
    gone : (xs : List Ref) → has (task p) (list_remove (task p) xs) ≡ false
    gone xs = ground (arith, has-remove (task p) (task p) xs)

    fresh : any_busy (update m p t) (list_remove (task p) q) ≡ any_busy m (list_remove (task p) q)
    fresh = any_busy-update m p t (list_remove (task p) q) (gone q)

    fresh_after :
        any_busy (update m p t) (after_phony (list_remove (task p) q))
        ≡ any_busy m (list_remove (task p) (after_phony q))
    fresh_after =
        rw (after_phony-remove p q)
          (any_busy-update m p t (list_remove (task p) (after_phony q)) (gone (after_phony q)))

    fresh_count :
        count_busy (update m p t) (list_remove (task p) q) ≡ count_busy m (list_remove (task p) q)
    fresh_count = count_busy-update m p t (list_remove (task p) q) (gone q)

dropped-Inv : {s : TxLoop} (p : ℕ) → Inv s → Inv (dropped p s)
unfolding unlink
dropped-Inv p v = record {
  queues = dropped-InQueues p v.queues;
  activity = remove-Activity p _ v.activity;
}

pub drop_task-Inv : {s : TxLoop} (p : ℕ) → Inv s → Inv (drop_task p s)
unfolding drop_task
drop_task-Inv {s} p v = elim (Bool-cases (flags_of s p).idle) [
  | inl e ↦ rw (e, drop_task) v
  | inr e ↦ rw (e, drop_task) (dropped-Inv p v)
]
