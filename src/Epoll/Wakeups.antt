-- ===== src/Epoll/Wakeups.antt =====
-- That an event of a descriptor (tx_epoll.cpp) reaches the task that waits for it (tx_aiocb.cpp).
use libtx.Common.{
  ℕ, ◌≡◌, refl, true, false, ◌||◌, if◌then◌else◌, Option, none, some, arith, ◌∙◌, ap,
}
use libtx.Loop.{TxLoop, flags_of, tx_task_active, tx_task_drop, drop_task, unlink, enqueue}
use libtx.Aiocb.{Net, flags_at, set_filp, generic_active_in, generic_active_out}
use libtx.Epoll.{
  CtlOp, CtlResult, done, mod_events, Interest, Event, Epoll, epoll_ops, arm_in, arm_out,
  take_holder, tx_epoll_pollin, tx_epoll_pollout, handle_event, hang_up, fired, tx_epoll_pollit,
}

pub active-busy :
    (p reason : ℕ) (l : TxLoop)
    → l.tx_stop ≡ false
    → (flags_of (tx_task_active (some p) reason l) p).busy ≡ true
unfolding tx_task_active tx_task_drop drop_task unlink enqueue
active-busy p reason l run = ground arith

active-keeps :
    (t : Option ℕ) (q reason : ℕ) (l : TxLoop)
    → (flags_of l q).busy ≡ true
    → (flags_of (tx_task_active t reason l) q).busy ≡ true
unfolding tx_task_active tx_task_drop drop_task unlink enqueue
active-keeps none q reason l b = b
active-keeps (some p) q reason l b = ground arith

active-stop :
    (t : Option ℕ) (reason : ℕ) (l : TxLoop) → (tx_task_active t reason l).tx_stop ≡ l.tx_stop
unfolding tx_task_active tx_task_drop drop_task unlink enqueue
active-stop none reason l = refl
active-stop (some p) reason l = ground arith

module _ {K : Type 0} (ctl' : CtlOp → Option ℕ → Interest → K → CtlResult × K) where
  -- The task that waits to read is busy, and waits no more.
  pub handle_event-wakes_in :
      (e : Event) (s : Net (Epoll K)) (t : ℕ)
      → (s.filps e.filp).tx_filterin ≡ some t
      → s.loop.tx_stop ≡ false
      → (e.hup || e.ready_in) ≡ true
      → ((flags_of (handle_event ctl' e s).loop t).busy ≡ true)
        × (((handle_event ctl' e s).filps e.filp).tx_filterin ≡ none)
        × ((flags_at (handle_event ctl' e s) e.filp).readable ≡ true)
  unfolding handle_event hang_up fired tx_epoll_pollit
  handle_event-wakes_in e s t f run h =
      let p = e.filp in
      let fo = (s.filps p).tx_filterout in
      (
        ground (
          arith,
          active-busy t p (tx_task_active fo p s.loop),
          active-stop fo p s.loop,
          active-busy t p s.loop,
        ),
        ground arith,
        ground arith,
      )

  pub active_in-waits :
      (p t : ℕ) (s : Net (Epoll K))
      → (flags_at s p).readable ≡ false
      → (flags_at s p).attached ≡ true
      → (flags_at s p).detached ≡ false
      → ((fd : Option ℕ) (i : Interest) (k : K) → (ctl' mod_events fd i k).0 ≡ done)
      → (u : Net (Epoll K)) × (generic_active_in (epoll_ops ctl') p (some t) s ≡ some u)
        × ((u.filps p).tx_filterin ≡ some t)
        × ((flags_at u p).pollin ≡ true)
        × (u.loop.tx_stop ≡ s.loop.tx_stop)
  unfolding generic_active_in tx_epoll_pollin arm_in take_holder
  active_in-waits p t s r a x rearms =
      let q = set_filp p (record (s.filps p) { tx_filterin = some t }) s in
      let k =
        rearms (s.filps p).tx_fd
          (record { want_in = true; want_out = (flags_at s p).pollout; oneshot = true })
          s.poll.kernel in
      (
        if (flags_at s p).pollin then q else take_holder (arm_in ctl' p q),
        ground arith,
        ground arith,
        ground (arith, k),
        ground arith,
      )

  -- The task that waits to write is busy, and waits no more.
  pub handle_event-wakes_out :
      (e : Event) (s : Net (Epoll K)) (t : ℕ)
      → (s.filps e.filp).tx_filterout ≡ some t
      → s.loop.tx_stop ≡ false
      → (e.hup || e.ready_out) ≡ true
      → ((flags_of (handle_event ctl' e s).loop t).busy ≡ true)
        × (((handle_event ctl' e s).filps e.filp).tx_filterout ≡ none)
        × ((flags_at (handle_event ctl' e s) e.filp).writable ≡ true)
  unfolding handle_event hang_up fired tx_epoll_pollit
  handle_event-wakes_out e s t f run h =
      let p = e.filp in
      let fi = (s.filps p).tx_filterin in
      (
        ground
            (arith, active-busy t p s.loop, active-keeps fi t p (tx_task_active (some t) p s.loop)),
        ground arith,
        ground arith,
      )

  pub active_out-waits :
      (p t : ℕ) (s : Net (Epoll K))
      → (flags_at s p).writable ≡ false
      → (flags_at s p).attached ≡ true
      → (flags_at s p).detached ≡ false
      → ((fd : Option ℕ) (i : Interest) (k : K) → (ctl' mod_events fd i k).0 ≡ done)
      → (u : Net (Epoll K)) × (generic_active_out (epoll_ops ctl') p (some t) s ≡ some u)
        × ((u.filps p).tx_filterout ≡ some t)
        × ((flags_at u p).pollout ≡ true)
        × (u.loop.tx_stop ≡ s.loop.tx_stop)
  unfolding generic_active_out tx_epoll_pollout arm_out take_holder
  active_out-waits p t s r a x rearms =
      let q = set_filp p (record (s.filps p) { tx_filterout = some t }) s in
      let k =
        rearms (s.filps p).tx_fd
          (record { want_in = (flags_at s p).pollin; want_out = true; oneshot = true })
          s.poll.kernel in
      (
        if (flags_at s p).pollout then q else take_holder (arm_out ctl' p q),
        ground arith,
        ground arith,
        ground (arith, k),
        ground arith,
      )

  -- On a running loop, and if the kernel grants each EPOLL_CTL_MOD, a task that asks to read from an
  -- attached descriptor that is not readable waits with TX_POLLIN set, and the next event of the
  -- descriptor with data or a hang-up makes the task busy and clears `tx_filterin`.
  pub active_in-woken :
      (p t : ℕ) (s : Net (Epoll K)) (e : Event)
      → ((fd : Option ℕ) (i : Interest) (k : K) → (ctl' mod_events fd i k).0 ≡ done)
      → (flags_at s p).readable ≡ false
      → (flags_at s p).attached ≡ true
      → (flags_at s p).detached ≡ false
      → s.loop.tx_stop ≡ false
      → e.filp ≡ p
      → (e.hup || e.ready_in) ≡ true
      → (u : Net (Epoll K)) × (generic_active_in (epoll_ops ctl') p (some t) s ≡ some u)
        × ((flags_at u p).pollin ≡ true)
        × ((flags_of (handle_event ctl' e u).loop t).busy ≡ true)
        × (((handle_event ctl' e u).filps e.filp).tx_filterin ≡ none)
  active_in-woken p t s e rearms r a x run at h =
      let w = active_in-waits p t s r a x rearms in
      let woken =
        handle_event-wakes_in e w.0 t (ap (λ q. (w.0.filps q).tx_filterin) at ∙ w.2) (w.4 ∙ run)
          h in
      (w.0, w.1, w.3, woken.0, woken.1)

  -- On a running loop, and if the kernel grants each EPOLL_CTL_MOD, a task that asks to write to an
  -- attached descriptor that is not writable waits with TX_POLLOUT set, and the next event of the
  -- descriptor with room or a hang-up makes the task busy and clears `tx_filterout`.
  pub active_out-woken :
      (p t : ℕ) (s : Net (Epoll K)) (e : Event)
      → ((fd : Option ℕ) (i : Interest) (k : K) → (ctl' mod_events fd i k).0 ≡ done)
      → (flags_at s p).writable ≡ false
      → (flags_at s p).attached ≡ true
      → (flags_at s p).detached ≡ false
      → s.loop.tx_stop ≡ false
      → e.filp ≡ p
      → (e.hup || e.ready_out) ≡ true
      → (u : Net (Epoll K)) × (generic_active_out (epoll_ops ctl') p (some t) s ≡ some u)
        × ((flags_at u p).pollout ≡ true)
        × ((flags_of (handle_event ctl' e u).loop t).busy ≡ true)
        × (((handle_event ctl' e u).filps e.filp).tx_filterout ≡ none)
  active_out-woken p t s e rearms r a x run at h =
      let w = active_out-waits p t s r a x rearms in
      let woken =
        handle_event-wakes_out e w.0 t (ap (λ q. (w.0.filps q).tx_filterout) at ∙ w.2) (w.4 ∙ run)
          h in
      (w.0, w.1, w.3, woken.0, woken.1)
