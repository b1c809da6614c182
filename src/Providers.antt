-- ===== src/Providers.antt =====
-- How a loop comes to its providers: `tx_epoll_init` of tx_epoll.cpp, `tx_kqueue_init` of
-- tx_kqueue.cpp, `tx_completion_port_init` of tx_completion_port.cpp and `tx_timer_ring_get` of
-- tx_timer.cpp look for a poll of theirs among the tasks of
-- the loop, and create one if there is none.
--
-- A poller is a number, its address, and its poll and the task of that poll have the same address.
-- `Polls` is the loop with the memory of the pollers. What `malloc`, `epoll_create`, `kqueue`
-- and `CreateIoCompletionPort` return are arguments.
pub mod Keeping
pub mod Search
mod Tests
use libtx.Common.{
  ℕ, Bool, true, false, ◌&&◌, ◌==◌, Option, none, some, List, [], ◌∷◌, if◌then◌else◌, update,
}
use libtx.Common.Int.{ℤ, pos}
use libtx.Loop.{TxTask, TxLoop, Ref, task, tx_task_init, tx_poll_active}
use libtx.Timer.{TimerRing, TxTimer, tx_timer_ring_new}

-- `LIST_FOREACH (np, taskq, entries) if (np->tx_call == call)`. The call of the tailer is NULL;
-- `tx_loop_main` does not set that of its phony task, which is taken to be another than `call`.
unfoldable pub find_call : ℕ → (ℕ → TxTask) → List Ref → Option ℕ
find_call call m [] = none
find_call call m (task p ∷ rs) =
    let rest = find_call call m rs in if (m p).tx_call == call then some p else rest
find_call call m (_ ∷ rs) = find_call call m rs

-- Which table `tx_ops` points to.
pub data OpsTable : Type 0 where
  unset_ops : OpsTable
  epoll_ops_table : OpsTable
  kqueue_ops_table : OpsTable
  completion_port_ops : OpsTable

abbrev pub ops_eq : OpsTable → OpsTable → Bool
ops_eq unset_ops unset_ops = true
ops_eq epoll_ops_table epoll_ops_table = true
ops_eq kqueue_ops_table kqueue_ops_table = true
ops_eq completion_port_ops completion_port_ops = true
ops_eq _ _ = false

pub record Polls : Type 0 where
  pub loop : TxLoop
  pub tx_ops : ℕ → OpsTable
  pub epoll_refcnt : ℕ → ℤ
  pub poll_fd : ℕ → ℕ
  pub port_list : ℕ → List ℕ

-- `loop->tx_poller != NULL && loop->tx_poller->tx_ops == &ops`.
abbrev pub poller_with : OpsTable → Option ℕ → (ℕ → OpsTable) → Option ℕ
poller_with ops none m = none
poller_with ops (some p) m = if ops_eq (m p) ops then some p else none

abbrev pub or_else : Option ℕ → Option ℕ → Option ℕ
or_else none b = b
or_else (some a) b = some a

-- The poller that is already there: the loop's `tx_poller`, or the first in the queue.
unfoldable pub existing : OpsTable → ℕ → Polls → Option ℕ
existing ops call s =
    or_else (poller_with ops s.loop.tx_poller s.tx_ops)
      (find_call call s.loop.tasks s.loop.tx_taskq)

-- `epoll_refcnt` is a field of the pollers of epoll and kqueue, and `port_list` of a completion port.
abbrev pub own_refcnt : OpsTable → ℕ → (ℕ → ℤ) → ℕ → ℤ
own_refcnt completion_port_ops p m = m
own_refcnt _ p m = update m p (pos 0)

abbrev pub own_list : OpsTable → ℕ → (ℕ → List ℕ) → ℕ → List ℕ
own_list completion_port_ops p m = update m p []
own_list _ p m = m

-- `tx_poll_init`, `tx_poll_active` and the fields, for a new poller `p`.
unfoldable pub create : OpsTable → (call p fd : ℕ) → Polls → Polls
create ops call p fd s =
    let l = tx_poll_active p (tx_task_init p call p s.loop) in
    record s {
      loop = record l { tx_poller = some p };
      tx_ops = update s.tx_ops p ops;
      epoll_refcnt = own_refcnt ops p s.epoll_refcnt;
      poll_fd = update s.poll_fd p fd;
      port_list = own_list ops p s.port_list;
    }

abbrev pub create_if : OpsTable → ℕ → (alloc fd : Option ℕ) → Polls → Option ℕ × Polls
create_if ops call (some p) (some fd) s = (some p, create ops call p fd s)
create_if ops call _ _ s = (none, s)

abbrev pub found_or : Option ℕ → Polls → Option ℕ × Polls → Option ℕ × Polls
found_or none s made = made
found_or (some q) s made = (some q, s)

unfoldable pub init_poller : OpsTable → ℕ → (alloc fd : Option ℕ) → Polls → Option ℕ × Polls
init_poller ops call alloc fd s = found_or (existing ops call s) s (create_if ops call alloc fd s)

-- `call` is the address of `tx_epoll_polling`; the code that is compiled on Linux.
unfoldable pub tx_epoll_init : (call : ℕ) (alloc fd : Option ℕ) → Polls → Option ℕ × Polls
unfolding init_poller
tx_epoll_init call alloc fd s = init_poller epoll_ops_table call alloc fd s

-- `call` is the address of `tx_kqueue_polling`; the code that is compiled on FreeBSD.
unfoldable pub tx_kqueue_init : (call : ℕ) (alloc fd : Option ℕ) → Polls → Option ℕ × Polls
unfolding init_poller
tx_kqueue_init call alloc fd s = init_poller kqueue_ops_table call alloc fd s

-- `call` is the address of `tx_completion_port_polling`; the code that is compiled on Windows.
unfoldable pub tx_completion_port_init :
    (call : ℕ) (alloc handle : Option ℕ) → Polls → Option ℕ × Polls
unfolding init_poller
tx_completion_port_init call alloc handle s = init_poller completion_port_ops call alloc handle s

-- The ring whose poll is the task `callout` of the queue, or what `tx_timer_ring_new` returns.
pub data RingResult : Type 0 where
  found : (callout : ℕ) → RingResult
  made : Option TimerRing → RingResult

abbrev pub ring_or : Option ℕ → Option TimerRing → RingResult
ring_or none r = made r
ring_or (some p) r = found p

unfoldable pub tx_timer_ring_get :
    (callout call self ticks : ℕ) → (ℕ → TxTimer) → TxLoop → RingResult
unfolding find_call
tx_timer_ring_get callout call self ticks timers l =
    ring_or (find_call call l.tasks l.tx_taskq) (tx_timer_ring_new callout call self ticks timers l)
