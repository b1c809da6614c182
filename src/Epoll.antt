-- ===== src/Epoll.antt =====
-- tx_epoll.cpp: the poller of Linux.
--
-- `epoll_ctl` and `epoll_wait` are the kernel's; they are parameters that act on a state `K` of the
-- kernel. The poller is a number, its address, and so is the task of its poll. DISABLE_MULTI_POLLER
-- is not defined.
pub mod Balance
pub mod Count
pub mod Descriptors
pub mod HangUp
pub mod Holder
pub mod Operations
pub mod Polling
pub mod Steps
pub mod Wakeups
mod Tests
use libtx.Common.{
  ℕ, Bool, true, false, not, ◌&&◌, ◌||◌, ◌==◌, Option, none, some, List, [], ◌∷◌, if◌then◌else◌,
  update,
}
use libtx.Common.Int.{ℤ, pos, negsuc, inc, dec, is_positive}
use libtx.Loop.{TxLoop, tx_poll_active, tx_loop_timeout}
use libtx.Aiocb.{AioFlags, Aiocb, Net, PollOps, set_filp, flags_at, with_flags, activate}

-- EPOLL_CTL_ADD, EPOLL_CTL_MOD and EPOLL_CTL_DEL.
pub data CtlOp : Type 0 where
  add : CtlOp
  mod_events : CtlOp
  del : CtlOp

-- The bits EPOLLIN, EPOLLOUT and EPOLLONESHOT of what is asked for.
pub record Interest : Type 0 where
  pub want_in : Bool
  pub want_out : Bool
  pub oneshot : Bool

-- What `epoll_ctl` returns: 0, or -1 with EPERM, or -1 with another `errno`.
pub data CtlResult : Type 0 where
  done : CtlResult
  not_pollable : CtlResult
  failed : CtlResult

abbrev pub is_done : CtlResult → Bool
is_done done = true
is_done _ = false

abbrev pub is_eperm : CtlResult → Bool
is_eperm not_pollable = true
is_eperm _ = false

-- An event of `epoll_wait`: `filp` is what `data.ptr` points to, `hup` is EPOLLHUP or EPOLLERR.
pub record Event : Type 0 where
  pub filp : ℕ
  pub ready_in : Bool
  pub ready_out : Bool
  pub hup : Bool

pub record Epoll (K : Type 0) : Type 0 where
  pub self : ℕ
  pub epoll_task : ℕ
  pub epoll_refcnt : ℤ
  pub kernel : K

abbrev pub no_events : Interest
no_events = record { want_in = false; want_out = false; oneshot = false }

abbrev pub set_holder : Option ℕ → TxLoop → TxLoop
set_holder h l = record l { tx_holder = h }

abbrev pub is_zero : ℤ → Bool
is_zero (pos n) = n == 0
is_zero (negsuc n) = false

abbrev pub is_self : Option ℕ → ℕ → Bool
is_self none self = false
is_self (some h) self = h == self

abbrev pub or_self : Option ℕ → ℕ → Option ℕ
or_self none self = some self
or_self (some h) self = some h

-- The flags after EPOLL_CTL_ADD.
abbrev pub attach_flags : CtlResult → AioFlags → AioFlags
attach_flags done f = record f { detached = false; attached = true }
attach_flags not_pollable f = record f { writable = true; readable = true }
attach_flags failed f = f

module _ {K : Type 0} where
  abbrev pub refcnt_to : ℤ → Net (Epoll K) → Net (Epoll K)
  refcnt_to n s = record s { poll = record s.poll { epoll_refcnt = n } }

  -- A poller with descriptors to watch takes the loop, if no other has it.
  unfoldable pub take_holder : Net (Epoll K) → Net (Epoll K)
  take_holder s =
      if is_positive s.poll.epoll_refcnt
      then record s { loop = set_holder (or_self s.loop.tx_holder s.poll.self) s.loop }
      else s

  unfoldable pub leave_holder : Net (Epoll K) → Net (Epoll K)
  leave_holder s =
      if is_self s.loop.tx_holder s.poll.self && is_zero s.poll.epoll_refcnt
      then record s { loop = set_holder none s.loop }
      else s

  -- `tx_loop_timeout (loop, poll)? 10: 0`.
  abbrev pub wait_ms : Net (Epoll K) → ℕ
  wait_ms s = if tx_loop_timeout s.loop s.poll.self == 0 then 0 else 10

  -- EPOLLHUP or EPOLLERR.
  unfoldable pub hang_up : ℕ → Net (Epoll K) → Net (Epoll K)
  hang_up p s =
      let a =
        with_flags p
          (record (flags_at s p) {
            pollin = false;
            pollout = false;
            readable = true;
            writable = true;
          })
          s in
      let b = activate (a.filps p).tx_filterout p a in
      let c = set_filp p (record (b.filps p) { tx_filterout = none }) b in
      let d = activate (c.filps p).tx_filterin p c in
      set_filp p (record (d.filps p) { tx_filterin = none }) d

  unfoldable pub fire_out : ℕ → Net (Epoll K) → Net (Epoll K)
  fire_out p s =
      let a = activate (s.filps p).tx_filterout p s in
      set_filp p
        (record (s.filps p) {
          tx_flags = record (flags_at s p) { pollout = false; writable = true };
          tx_filterout = none;
        })
        a

  unfoldable pub fire_in : ℕ → Net (Epoll K) → Net (Epoll K)
  fire_in p s =
      let a = activate (s.filps p).tx_filterin p s in
      set_filp p
        (record (s.filps p) {
          tx_flags = record (flags_at s p) { pollin = false; readable = true };
          tx_filterin = none;
        })
        a

  -- The handling of EPOLLOUT and then of EPOLLIN.
  unfoldable pub fired : Event → Net (Epoll K) → Net (Epoll K)
  unfolding fire_out fire_in
  fired e s =
      let u = if e.ready_out then fire_out e.filp s else s in
      if e.ready_in then fire_in e.filp u else u

  module _ (epoll_ctl : CtlOp → Option ℕ → Interest → K → CtlResult × K) where
    -- `epoll_ctl (epoll->epoll_fd, op, filp->tx_fd, &event)`, and what it returns.
    abbrev pub ctl : CtlOp → ℕ → Interest → Net (Epoll K) → CtlResult
    ctl op p i s = (epoll_ctl op (s.filps p).tx_fd i s.poll.kernel).0

    abbrev pub after_ctl : CtlOp → ℕ → Interest → Net (Epoll K) → Net (Epoll K)
    after_ctl op p i s = record s {
      poll = record s.poll { kernel = (epoll_ctl op (s.filps p).tx_fd i s.poll.kernel).1 };
    }

    -- What is done under `(filp->tx_flags & TX_POLLOUT) == 0`, after the assertion.
    unfoldable pub arm_out : ℕ → Net (Epoll K) → Net (Epoll K)
    arm_out p s =
        let f = flags_at s p in
        let i : Interest = record { want_in = f.pollin; want_out = true; oneshot = true } in
        let ok = is_done (ctl mod_events p i s) in
        with_flags p (record f { pollout = ok })
          (refcnt_to (if ok && not f.pollin then inc s.poll.epoll_refcnt else s.poll.epoll_refcnt)
            (after_ctl mod_events p i s))

    unfoldable pub tx_epoll_pollout : ℕ → Net (Epoll K) → Option (Net (Epoll K))
    unfolding arm_out take_holder
    tx_epoll_pollout p s =
        let f = flags_at s p in
        if f.pollout
        then some (take_holder s)
        else if f.attached && not f.detached
        then some (take_holder (arm_out p s))
        else none

    unfoldable pub arm_in : ℕ → Net (Epoll K) → Net (Epoll K)
    arm_in p s =
        let f = flags_at s p in
        let i : Interest = record { want_in = true; want_out = f.pollout; oneshot = true } in
        let ok = is_done (ctl mod_events p i s) in
        with_flags p (record f { pollin = ok })
          (refcnt_to (if ok && not f.pollout then inc s.poll.epoll_refcnt else s.poll.epoll_refcnt)
            (after_ctl mod_events p i s))

    unfoldable pub tx_epoll_pollin : ℕ → Net (Epoll K) → Option (Net (Epoll K))
    unfolding arm_in take_holder
    tx_epoll_pollin p s =
        let f = flags_at s p in
        if f.pollin
        then some (take_holder s)
        else if f.attached && not f.detached
        then some (take_holder (arm_in p s))
        else none

    unfoldable pub tx_epoll_attach : ℕ → Net (Epoll K) → Net (Epoll K)
    tx_epoll_attach p s =
        let f = flags_at s p in
        if (not f.attached && not f.detached) || (f.attached && f.detached)
        then with_flags p (attach_flags (ctl add p no_events s) f) (after_ctl add p no_events s)
        else s

    unfoldable pub delete_fd : ℕ → Net (Epoll K) → Net (Epoll K)
    delete_fd p s =
        let f = flags_at s p in
        if f.attached && not f.detached
        then with_flags p (record f { detached = is_done (ctl del p no_events s) })
            (after_ctl del p no_events s)
        else s

    unfoldable pub tx_epoll_detach : ℕ → Net (Epoll K) → Net (Epoll K)
    tx_epoll_detach p s =
        let t = delete_fd p s in
        if (flags_at t p).pollin || (flags_at t p).pollout
        then leave_holder (refcnt_to (dec t.poll.epoll_refcnt) t)
        else t

    -- `TX_POLLIN` and `TX_POLLOUT` are set again, which they are already.
    unfoldable pub tx_epoll_pollit : ℕ → Net (Epoll K) → Net (Epoll K)
    tx_epoll_pollit p s =
        let f = flags_at s p in
        let i : Interest = record { want_in = f.pollin; want_out = f.pollout; oneshot = true } in
        refcnt_to
          (if is_done (ctl mod_events p i s) then inc s.poll.epoll_refcnt else s.poll.epoll_refcnt)
          (after_ctl mod_events p i s)

    -- One round of the `for` of `tx_epoll_polling`.
    unfoldable pub handle_event : Event → Net (Epoll K) → Net (Epoll K)
    handle_event e s =
        let p = e.filp in
        let t = refcnt_to (dec s.poll.epoll_refcnt) s in
        if e.hup
        then hang_up p t
        else let v = fired e t in
          if (flags_at v p).pollin || (flags_at v p).pollout then tx_epoll_pollit p v else v

    unfoldable pub handle_each : List Event → Net (Epoll K) → Net (Epoll K)
    handle_each [] s = s
    handle_each (e ∷ es) s = handle_each es (handle_event e s)

    abbrev pub epoll_ops : PollOps (Epoll K)
    epoll_ops = record {
      tx_pollout = tx_epoll_pollout;
      tx_pollin = tx_epoll_pollin;
      tx_attach = tx_epoll_attach;
      tx_detach = tx_epoll_detach;
    }

    module _ (epoll_wait : ℕ → K → List Event × K) where
      -- `epoll_wait` gets how many milliseconds it may wait; EAGAIN and EINTR are no events, and any
      -- other error, which ends the program, is left out.
      abbrev pub waited : Net (Epoll K) → List Event × K
      waited s = epoll_wait (wait_ms s) s.poll.kernel

      unfoldable pub tx_epoll_polling : Net (Epoll K) → Net (Epoll K)
      tx_epoll_polling s =
          let (events, k) = waited s in
          let t =
            leave_holder (handle_each events (record s { poll = record s.poll { kernel = k } })) in
          record t { loop = tx_poll_active t.poll.epoll_task t.loop }
