-- ===== src/Loop/Stopped.antt =====
-- What is left of a wait queue that is woken after the loop was stopped (tx_loop.cpp).
use libtx.Common.{ℕ, ◌≡◌, refl, true, false, List, [], ◌∷◌, arith, update, ◌∙◌}
use libtx.Loop.{
  TxLoop, Ref, task, phony, tailer, flags_of, tx_task_active, wakeup_one, wakeup_each,
  tx_task_wakeup,
}
use libtx.Loop.Queues.{has}
use libtx.Loop.Invariant.{Inv, Detached}

-- `t` has the queues of `s`, and the tasks that are idle in `s`.
record SameQueues (s t : TxLoop) : Type 0 where
  queue : t.tx_taskq ≡ s.tx_taskq
  waits : t.waitq ≡ s.waitq
  idle : (p : ℕ) → (flags_of t p).idle ≡ (flags_of s p).idle
  stop : t.tx_stop ≡ s.tx_stop

wakeup_one-stopped :
    (reason : ℕ) (r : Ref) (s : TxLoop) → s.tx_stop ≡ true → SameQueues s (wakeup_one reason r s)
unfolding wakeup_one tx_task_active
wakeup_one-stopped reason (task p) s h = record {
  queue = ground arith;
  waits = ground arith;
  idle = λ q. ground arith;
  stop = ground arith;
}
wakeup_one-stopped reason phony s h = record {
  queue = refl;
  waits = refl;
  idle = λ q. refl;
  stop = refl;
}
wakeup_one-stopped reason tailer s h = record {
  queue = refl;
  waits = refl;
  idle = λ q. refl;
  stop = refl;
}

wakeup_each-stopped :
    (reason : ℕ) (rs : List Ref) (s : TxLoop)
    → s.tx_stop ≡ true
    → SameQueues s (wakeup_each reason rs s)
unfolding wakeup_each
wakeup_each-stopped reason [] s h = record {
  queue = refl;
  waits = refl;
  idle = λ q. refl;
  stop = refl;
}
wakeup_each-stopped reason (r ∷ rs) s h =
    let one = wakeup_one-stopped reason r s h in
    let all = wakeup_each-stopped reason rs (wakeup_one reason r s) (one.stop ∙ h) in
    record {
      queue = all.queue ∙ one.queue;
      waits = all.waits ∙ one.waits;
      idle = λ q. all.idle q ∙ one.idle q;
      stop = all.stop ∙ one.stop;
    }

-- If `tx_task_wakeup` is called after `tx_loop_stop`, each task that waited is lost: it is in no
-- queue any more, and is not idle either.
pub wakeup-stopped :
    (q reason p : ℕ) (s : TxLoop)
    → Inv s
    → s.tx_stop ≡ true
    → has (task p) (s.waitq q) ≡ true
    → Detached p (tx_task_wakeup q reason s)
      × ((flags_of (tx_task_wakeup q reason s) p).idle ≡ false)
unfolding tx_task_wakeup
wakeup-stopped q reason p s v h waits =
    let same = wakeup_each-stopped reason (s.waitq q) s h in
    let w = v.queues.waiting q p waits in
    (
      record {
        unqueued = rw (same.queue) (w.1);
        unrecorded = λ r. emptied (wakeup_each reason (s.waitq q) s) r same.waits;
      },
      same.idle p ∙ w.0,
    )
  where
    emptied :
        (t : TxLoop) (r : ℕ) → t.waitq ≡ s.waitq → has (task p) (update t.waitq q [] r) ≡ false
    emptied t r e = rw e (ground (arith, v.queues.one_wait q r p))
