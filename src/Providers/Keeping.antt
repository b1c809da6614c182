-- ===== src/Providers/Keeping.antt =====
-- The creation of providers (tx_epoll.cpp, tx_timer.cpp) under the invariant of the loop.
use libtx.Common.{ℕ, ◌≡◌, refl, sym, ap, ◌∙◌, false, Option, none, some, ==_refl, arith, subst}
use libtx.Loop.{TxLoop, task, flags_of, tx_task_init, tx_poll_active}
use libtx.Loop.Queues.{has}
use libtx.Loop.Invariant.{Inv, Detached}
use libtx.Loop.Calls.{tx_task_init-Inv}
use libtx.Loop.Waits.{tx_poll_active-Inv}
use libtx.Timer.{TimerRing, TxTimer, tx_timer_ring_new}
use libtx.Providers.{
  OpsTable, epoll_ops_table, Polls, find_call, existing, create, create_if, found_or, init_poller,
  tx_epoll_init, found, made, ring_or, tx_timer_ring_get,
}
use libtx.Providers.Search.{find-register, find-epoll_init}

-- The invariant does not depend on `tx_poller`.
poller-Inv : {l : TxLoop} (o : Option ℕ) → Inv l → Inv (record l { tx_poller = o })
poller-Inv {l} o v = record {
  queues =
      let u = v.queues in
      record {
        ends = u.ends;
        once = u.once;
        once_waiting = u.once_waiting;
        real = u.real;
        queued = u.queued;
        waiting = u.waiting;
        one_wait = u.one_wait;
        busy_queued = u.busy_queued;
      };
  activity = v.activity;
}

create-Inv :
    (ops : OpsTable) (c p fd : ℕ) (s : Polls)
    → Inv s.loop
    → Detached p s.loop
    → Inv (create ops c p fd s).loop
unfolding create
create-Inv ops c p fd s v d =
    poller-Inv (some p) (tx_poll_active-Inv p (tx_task_init-Inv p c p v d))

create_if-Inv :
    (ops : OpsTable) (c : ℕ) (alloc fd : Option ℕ) (s : Polls)
    → Inv s.loop
    → ((p : ℕ) → alloc ≡ some p → Detached p s.loop)
    → Inv (create_if ops c alloc fd s).1.loop
create_if-Inv ops c (some p) (some n) s v d = create-Inv ops c p n s v (d p refl)
create_if-Inv ops c none fd s v d = v
create_if-Inv ops c (some p) none s v d = v

-- `tx_epoll_init` keeps the invariant of the loop, if memory that is allocated is in no queue.
pub tx_epoll_init-Inv :
    (c : ℕ) (alloc fd : Option ℕ) (s : Polls)
    → Inv s.loop
    → ((p : ℕ) → alloc ≡ some p → Detached p s.loop)
    → Inv (tx_epoll_init c alloc fd s).1.loop
unfolding tx_epoll_init init_poller
tx_epoll_init-Inv c alloc fd s v d = found_case (existing epoll_ops_table c s)
  where
    found_case : (o : Option ℕ) → Inv (found_or o s (create_if epoll_ops_table c alloc fd s)).1.loop
    found_case none = create_if-Inv epoll_ops_table c alloc fd s v d
    found_case (some r) = v

abbrev ring_loop : TxLoop → Option TimerRing → TxLoop
ring_loop l none = l
ring_loop l (some r) = r.loop

active-stop : (p : ℕ) (l : TxLoop) → (tx_poll_active p l).tx_stop ≡ l.tx_stop
unfolding tx_poll_active
active-stop p l = ground arith

active-queued :
    (p : ℕ) (l : TxLoop) → l.tx_stop ≡ false → (flags_of (tx_poll_active p l) p).idle ≡ false
unfolding tx_poll_active
active-queued p l run = ground arith

-- The loop of a new ring.
ring_new-loop :
    (callout call self ticks : ℕ) (timers : ℕ → TxTimer) (l : TxLoop) (r : TimerRing)
    → l.tx_stop ≡ false
    → tx_timer_ring_new callout call self ticks timers l ≡ some r
    → r.loop ≡ tx_poll_active callout (tx_task_init callout call self l)
unfolding tx_timer_ring_new tx_task_init
ring_new-loop callout call self ticks timers l r run e =
    sym (ap (ring_loop l) e)
    ∙ rw (active-queued callout (tx_task_init callout call self l) run) refl

made_get :
    (o : Option ℕ) (n : Option TimerRing) (r : TimerRing)
    → ring_or o n ≡ made (some r)
    → (o ≡ none) × (n ≡ some r)
made_get none n r e = (refl, cc)
made_get (some p) n r e = cc

-- On a running loop that satisfies the invariant, a ring that `tx_timer_ring_get` creates with a poll
-- that was in no queue is found by its next call, also when `tx_epoll_init` is called in between with
-- memory that is in no queue.
pub ring_get-epoll_init :
    (callout call self ticks callout' self' ticks' c : ℕ) (timers timers' : ℕ → TxTimer)
    (l : TxLoop) (r : TimerRing) (alloc fd : Option ℕ) (s : Polls)
    → Inv l
    → Detached callout l
    → l.tx_stop ≡ false
    → tx_timer_ring_get callout call self ticks timers l ≡ made (some r)
    → s.loop ≡ r.loop
    → ((p : ℕ) → alloc ≡ some p → has (task p) s.loop.tx_taskq ≡ false)
    → tx_timer_ring_get callout' call self' ticks' timers' (tx_epoll_init c alloc fd s).1.loop
      ≡ found callout
unfolding tx_timer_ring_get tx_task_init
ring_get-epoll_init callout call self ticks callout' self' ticks' c timers timers' l r alloc fd s v
      d run e same fresh =
    let g = made_get (find_call call l.tasks l.tx_taskq) _ r e in
    let u = tx_poll_active callout (tx_task_init callout call self l) in
    let k = same ∙ ring_new-loop callout call self ticks timers l r run g.1 in
    let w = tx_poll_active-Inv callout (tx_task_init-Inv callout call self v d) in
    let z : find_call call u.tasks u.tx_taskq ≡ some callout =
      find-register call call callout self l v.queues.ends d.unqueued run
      ∙ rw (g.0, ==_refl call) refl in
    rw
      (find-epoll_init call c callout alloc fd s (subst Inv (sym k) w) fresh
        (ap (λ (x : TxLoop). x.tx_stop) k ∙ active-stop callout _ ∙ run)
        (ap (λ (x : TxLoop). find_call call x.tasks x.tx_taskq) k ∙ z))
      refl
