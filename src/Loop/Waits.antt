-- ===== src/Loop/Waits.antt =====
-- Wait queues (`tx_task_record`, `tx_task_wakeup`) and polls (tx_poll.cpp) under the invariant.
use libtx.Common.{
  ℕ, ◌≡◌, refl, true, false, not, ◌&&◌, some, List, [], ◌∷◌, arith, update, Bool-cases, inl, inr,
}
use libtx.Loop.{
  TxLoop, Ref, task, phony, tailer, set_flags, flags_of, tx_task_record, wakeup_one, wakeup_each,
  tx_task_wakeup, tx_poll_active,
}
use libtx.Loop.Queues.{has-insert, Distinct-insert, ends_tailer-insert}
use libtx.Loop.Invariant.{Inv, Detached, idle-Detached, drop_task-Inv}
use libtx.Loop.Activity.{same-Activity, quiet-Activity}
use libtx.Loop.Calls.{set_flags-Inv, drop_task-Detached, drop_task-busy, tx_task_active-Inv}

-- The task that `tx_task_record` has dropped goes to the head of the wait queue.
abbrev recorded : ℕ → ℕ → TxLoop → TxLoop
recorded q p t =
    set_flags p (record (flags_of t p) { pending = true; idle = false })
      (record t { waitq = update t.waitq q (task p ∷ t.waitq q) })

recorded-Inv :
    {t : TxLoop} (q p : ℕ)
    → Inv t
    → Detached p t
    → (flags_of t p).busy ≡ false
    → Inv (recorded q p t)
recorded-Inv {t} q p v d b = record {
  queues = record {
    ends = v.queues.ends;
    once = v.queues.once;
    once_waiting = λ r. ground (arith, v.queues.once_waiting r, d.unrecorded q);
    real = λ r. ground (arith, v.queues.real r, v.queues.real q);
    queued = λ a h. ground (arith, v.queues.queued a);
    waiting = λ r a h. (
      ground (arith, v.queues.waiting r a, v.queues.waiting q a),
      ground (arith, v.queues.waiting r a, v.queues.waiting q a, d.unqueued),
    );
    one_wait = λ r r' a h k. ground (
      arith,
      v.queues.one_wait r r' a,
      v.queues.one_wait q r' a,
      v.queues.one_wait r q a,
      d.unrecorded r,
      d.unrecorded r',
    );
    busy_queued = λ a h. ground (arith, v.queues.busy_queued a);
  };
  activity = same-Activity p _ refl v.activity;
}

pub tx_task_record-Inv : {s : TxLoop} (q p : ℕ) → Inv s → Inv (tx_task_record q p s)
unfolding tx_task_record
tx_task_record-Inv q p v =
    recorded-Inv q p (drop_task-Inv p v) (drop_task-Detached p v.queues) (drop_task-busy p v.queues)

pub wakeup_one-Inv : {s : TxLoop} (reason : ℕ) (r : Ref) → Inv s → Inv (wakeup_one reason r s)
unfolding wakeup_one
wakeup_one-Inv reason (task p) v =
    tx_task_active-Inv (some p) reason (set_flags-Inv p _ v refl refl)
wakeup_one-Inv reason phony v = v
wakeup_one-Inv reason tailer v = v

wakeup_each-Inv : (reason : ℕ) (rs : List Ref) (s : TxLoop) → Inv s → Inv (wakeup_each reason rs s)
unfolding wakeup_each
wakeup_each-Inv reason [] s v = v
wakeup_each-Inv reason (r ∷ rs) s v =
    wakeup_each-Inv reason rs (wakeup_one reason r s) (wakeup_one-Inv reason r v)

emptied-Inv : {t : TxLoop} (q : ℕ) → Inv t → Inv (record t { waitq = update t.waitq q [] })
emptied-Inv q v = record {
  queues = record {
    ends = v.queues.ends;
    once = v.queues.once;
    once_waiting = λ r. ground (arith, v.queues.once_waiting r);
    real = λ r. ground (arith, v.queues.real r);
    queued = v.queues.queued;
    waiting = λ r a h. ground (arith, v.queues.waiting r a);
    one_wait = λ r r' a h k. ground (arith, v.queues.one_wait r r' a);
    busy_queued = v.queues.busy_queued;
  };
  activity = v.activity;
}

pub tx_task_wakeup-Inv : {s : TxLoop} (q reason : ℕ) → Inv s → Inv (tx_task_wakeup q reason s)
unfolding tx_task_wakeup
tx_task_wakeup-Inv {s} q reason v = emptied-Inv q (wakeup_each-Inv reason (s.waitq q) s v)

pub tx_poll_active-Inv : {s : TxLoop} (p : ℕ) → Inv s → Inv (tx_poll_active p s)
unfolding tx_poll_active
tx_poll_active-Inv {s} p v = elim (Bool-cases (not s.tx_stop && (flags_of s p).idle)) [
  | inl e ↦
      let d = idle-Detached p v.queues (ground arith) in
      let b : (flags_of s p).busy ≡ false = ground (arith, v.queues.busy_queued p, d.unqueued) in
      rw e (record {
        queues = record {
          ends = ends_tailer-insert p s.tx_taskq v.queues.ends;
          once = Distinct-insert (task p) s.tx_taskq v.queues.ends v.queues.once d.unqueued;
          once_waiting = v.queues.once_waiting;
          real = v.queues.real;
          queued = λ a h.
              ground
                (arith, has-insert (task p) (task a) s.tx_taskq v.queues.ends, v.queues.queued a);
          waiting = λ q a h. (
            ground (arith, v.queues.waiting q a, d.unrecorded q),
            ground (
              arith,
              has-insert (task p) (task a) s.tx_taskq v.queues.ends,
              v.queues.waiting q a,
              d.unrecorded q,
            ),
          );
          one_wait = v.queues.one_wait;
          busy_queued = λ a h. ground (
            arith,
            has-insert (task p) (task a) s.tx_taskq v.queues.ends,
            v.queues.busy_queued a,
          );
        };
        activity = quiet-Activity p _ b v.queues.ends d.unqueued v.activity;
      })
  | inr e ↦ rw e v
]
