-- ===== src/Loop/Progress.antt =====
-- What no call of tx_loop.cpp takes back: the place of the phony task in the queue, and the flags
-- `tx_stop` and `tx_break`.
use libtx.Common.{
  ℕ, ◌≤◌, ◌≡◌, refl, true, false, not, ◌&&◌, Option, none, some, List, [], ◌∷◌, arith, Bool-cases,
  inl, inr,
}
use libtx.Loop.{
  TxLoop, Ref, task, phony, tailer, flags_of, unlink, tx_task_init, tx_task_mark, drop_task,
  tx_task_drop, enqueue, tx_task_active, tx_task_record, wakeup_one, wakeup_each, tx_task_wakeup,
  tx_poll_active, tx_loop_break, tx_loop_stop,
}
use libtx.Loop.Queues.{has, ends_tailer, has-remove, has-insert}
use libtx.Loop.Invariant.{Inv, drop_task-Inv}
use libtx.Loop.Calls.{set_flags-Inv}
use libtx.Loop.Waits.{wakeup_one-Inv}
use libtx.Loop.Phony.{before_phony, before_phony-remove, before_phony-insert}
use libtx.Loop.Steps.{
  Call, init, mark, drop, active, record_in, wakeup, poll, break_off, stop, Calls, no_call,
  then_call, Calls-Inv,
}

pub record Forward (s t : TxLoop) : Type 0 where
  pub present : has phony s.tx_taskq ≡ true → has phony t.tx_taskq ≡ true
  pub nearer : has phony s.tx_taskq ≡ true → before_phony t.tx_taskq ≤ before_phony s.tx_taskq
  pub stopped : s.tx_stop ≡ true → t.tx_stop ≡ true
  pub broken : s.tx_break ≡ true → t.tx_break ≡ true

pub Forward-refl : (s : TxLoop) → Forward s s
Forward-refl s = record {
  present = λ h. h;
  nearer = λ h. omega arith;
  stopped = λ h. h;
  broken = λ h. h;
}

pub Forward-trans : {s t u : TxLoop} → Forward s t → Forward t u → Forward s u
Forward-trans f g = record {
  present = λ h. g.present (f.present h);
  nearer = λ h. omega (arith, f.nearer h, g.nearer (f.present h));
  stopped = λ h. g.stopped (f.stopped h);
  broken = λ h. g.broken (f.broken h);
}

drop_task-Forward : (p : ℕ) (s : TxLoop) → Forward s (drop_task p s)
unfolding drop_task unlink
drop_task-Forward p s = record {
  present = λ h. ground (arith, has-remove (task p) phony s.tx_taskq);
  nearer = λ h. ground (arith, before_phony-remove p s.tx_taskq);
  stopped = λ h. ground arith;
  broken = λ h. ground arith;
}

enqueue-Forward :
    (p reason : ℕ) (s : TxLoop) → ends_tailer s.tx_taskq ≡ true → Forward s (enqueue p reason s)
unfolding enqueue
enqueue-Forward p reason s e = record {
  present = λ h. ground (arith, has-insert (task p) phony s.tx_taskq e);
  nearer = λ h. ground (arith, before_phony-insert p s.tx_taskq e h);
  stopped = λ h. h;
  broken = λ h. h;
}

tx_task_active-Forward :
    (p : Option ℕ) (reason : ℕ) (s : TxLoop) → Inv s → Forward s (tx_task_active p reason s)
unfolding tx_task_active
tx_task_active-Forward none reason s v = Forward-refl s
tx_task_active-Forward (some p) reason s v =
    elim (Bool-cases (not s.tx_stop && not (flags_of s p).busy)) [
      | inl e ↦ rw e (
          Forward-trans (drop_task-Forward p s)
            (enqueue-Forward p reason (drop_task p s) (drop_task-Inv p v).queues.ends))
      | inr e ↦ rw e (Forward-refl s)
    ]

wakeup_one-Forward : (reason : ℕ) (r : Ref) (s : TxLoop) → Inv s → Forward s (wakeup_one reason r s)
unfolding wakeup_one
wakeup_one-Forward reason (task p) s v =
    let w = set_flags-Inv p (record (flags_of s p) { pending = false }) v refl refl in
    let f = tx_task_active-Forward (some p) reason _ w in
    record { present = f.present; nearer = f.nearer; stopped = f.stopped; broken = f.broken }
wakeup_one-Forward reason phony s v = Forward-refl s
wakeup_one-Forward reason tailer s v = Forward-refl s

wakeup_each-Forward :
    (reason : ℕ) (rs : List Ref) (s : TxLoop) → Inv s → Forward s (wakeup_each reason rs s)
unfolding wakeup_each
wakeup_each-Forward reason [] s v = Forward-refl s
wakeup_each-Forward reason (r ∷ rs) s v =
    Forward-trans (wakeup_one-Forward reason r s v)
      (wakeup_each-Forward reason rs (wakeup_one reason r s) (wakeup_one-Inv reason r v))

tx_poll_active-Forward : (p : ℕ) (s : TxLoop) → Inv s → Forward s (tx_poll_active p s)
unfolding tx_poll_active
tx_poll_active-Forward p s v = record {
  present = λ h. ground (arith, has-insert (task p) phony s.tx_taskq v.queues.ends);
  nearer = λ h. ground (arith, before_phony-insert p s.tx_taskq v.queues.ends h);
  stopped = λ h. ground arith;
  broken = λ h. ground arith;
}

-- A change of what `Forward` does not speak of.
same-Forward :
    {s t u : TxLoop}
    → Forward s t
    → u.tx_taskq ≡ t.tx_taskq
    → u.tx_stop ≡ t.tx_stop
    → u.tx_break ≡ t.tx_break
    → Forward s u
same-Forward f q a b = record {
  present = λ h. rw q (f.present h);
  nearer = λ h. rw q (f.nearer h);
  stopped = λ h. rw a (f.stopped h);
  broken = λ h. rw b (f.broken h);
}

Call-Forward : {s t : TxLoop} → Call s t → Inv s → Forward s t
unfolding tx_task_init tx_task_mark tx_task_drop tx_task_record tx_task_wakeup tx_loop_break
    tx_loop_stop
Call-Forward {s} (init p call ctx d) v = same-Forward (Forward-refl s) refl refl refl
Call-Forward {s} (mark p) v = same-Forward (Forward-refl s) refl refl refl
Call-Forward {s} (drop none) v = Forward-refl s
Call-Forward {s} (drop (some p)) v = drop_task-Forward p s
Call-Forward {s} (active p reason) v = tx_task_active-Forward p reason s v
Call-Forward {s} (record_in q p) v = same-Forward (drop_task-Forward p s) refl refl refl
Call-Forward {s} (wakeup q reason) v =
    same-Forward (wakeup_each-Forward reason (s.waitq q) s v) refl refl refl
Call-Forward {s} (poll p) v = tx_poll_active-Forward p s v
Call-Forward {s} break_off v = record {
  present = λ h. h;
  nearer = λ h. omega arith;
  stopped = λ h. h;
  broken = λ h. refl;
}
Call-Forward {s} stop v = record {
  present = λ h. h;
  nearer = λ h. omega arith;
  stopped = λ h. refl;
  broken = λ h. h;
}

pub Calls-Forward : {s t : TxLoop} → Calls s t → Inv s → Forward s t
Calls-Forward {s} no_call v = Forward-refl s
Calls-Forward (then_call cs c) v =
    Forward-trans (Calls-Forward cs v) (Call-Forward c (Calls-Inv cs v))
