-- ===== src/Loop/Whole.antt =====
-- `tx_loop_main` and `tx_loop_timeout` (tx_loop.cpp): what a caller of the loop may rely on.
use libtx.Common.{ℕ, ◌+◌, ◌≤◌, ◌<◌, ◌≡◌, sym, ap, true, false, List, [], ◌∷◌, arith, length, ◌∙◌}
use libtx.Common.Int.{is_positive_of_le}
use libtx.Loop.{
  TxLoop, Ref, task, phony, tailer, list_remove, insert_before_tailer, tx_loop_timeout,
}
use libtx.Loop.Main.{Run, finished, crashed, unfinished, enter, exit, tx_loop_main}
use libtx.Loop.Queues.{has, any_busy, has-insert, Distinct-insert, any_busy-count}
use libtx.Loop.Invariant.{InQueues, Inv}
use libtx.Loop.Phony.{
  before_phony, any_busy-insert_phony, count_busy-insert_phony, after-insert_phony,
  ends_tailer-insert_phony,
}
use libtx.Loop.Steps.{Calls}
use libtx.Loop.Ending.{Running, Asked, Ends, ends, main_loop-Ends}

-- The loop as its users see it: no main loop is running.
pub record Resting (s : TxLoop) : Type 0 where
  pub inv : Inv s
  pub absent : has phony s.tx_taskq ≡ false

enter-Running : (s : TxLoop) → Resting s → Running (enter s)
unfolding enter
enter-Running s r = record {
  inv = record {
    queues = record {
      ends = ends_tailer-insert_phony s.tx_taskq u.ends;
      once = Distinct-insert phony s.tx_taskq u.ends u.once r.absent;
      once_waiting = u.once_waiting;
      real = u.real;
      queued = λ p h. u.queued p (sym (at p) ∙ h);
      waiting = λ q p h. ((u.waiting q p h).0, at p ∙ (u.waiting q p h).1);
      one_wait = u.one_wait;
      busy_queued = λ p h. at p ∙ u.busy_queued p h;
    };
    activity = record {
      recent = λ h. cc (after-insert_phony s.tasks s.tx_taskq u.ends r.absent);
      round = λ h. r.inv.activity.round (sym (any_busy-insert_phony s.tasks s.tx_taskq) ∙ h);
      counted = omega (arith, count_busy-insert_phony s.tasks s.tx_taskq, r.inv.activity.counted);
    };
  };
  present = has-insert phony phony s.tx_taskq u.ends;
}
  where
    u : InQueues s
    u = r.inv.queues

    at : (p : ℕ) → has (task p) (insert_before_tailer phony s.tx_taskq) ≡ has (task p) s.tx_taskq
    at p = has-insert phony (task p) s.tx_taskq u.ends

abbrev left_behind : TxLoop → TxLoop
left_behind t = record t { tx_taskq = list_remove phony t.tx_taskq }

abbrev pub Outcome : Run → Type 0
Outcome (finished t) = Resting t
Outcome crashed = ⊥
Outcome unfinished = Unit {0}

before_phony-enter : (xs : List Ref) → before_phony (insert_before_tailer phony xs) ≤ length xs
unfolding insert_before_tailer
before_phony-enter [] = omega arith
before_phony-enter (task p ∷ xs) = omega (arith, before_phony-enter xs)
before_phony-enter (phony ∷ xs) = omega arith
before_phony-enter (tailer ∷ xs) = omega arith

module _ (callback : ℕ → TxLoop → TxLoop)
    (acts : (p : ℕ) (s : TxLoop) → Calls s (callback p s)) where
  -- If `tx_stop` or `tx_break` is set when `tx_loop_main` is called on a loop at rest, and the tasks'
  -- functions act by calls of the loop, it returns, after at most as many rounds as the queue has
  -- elements, and two.
  pub tx_loop_main-Ends :
      (fuel : ℕ) (s : TxLoop)
      → Resting s
      → Asked s
      → length s.tx_taskq + 1 < fuel
      → Ends (tx_loop_main callback fuel s)
  unfolding tx_loop_main enter
  tx_loop_main-Ends fuel s r asked big = leaves (
      main_loop-Ends callback acts fuel true (enter s) (enter-Running s r) asked
        (omega (arith, before_phony-enter s.tx_taskq)))
    where
      leaves : {r : Run} → Ends r → Ends (exit r)
      leaves (ends t e) = ends (left_behind t) (ap exit e)

-- In a loop that satisfies the invariant, while any task of the queue is busy, a poller is told not to
-- sleep, whoever holds the loop.
pub timeout-busy :
    (s : TxLoop) (verify : ℕ)
    → Inv s
    → any_busy s.tasks s.tx_taskq ≡ true
    → tx_loop_timeout s verify ≡ 0
unfolding tx_loop_timeout
timeout-busy s verify v h =
    let p =
      is_positive_of_le s.tx_actives 0
        (omega (arith, v.activity.counted, any_busy-count s.tasks s.tx_taskq h)) in
    ground (arith, v.activity.round h)
