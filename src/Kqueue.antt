-- ===== src/Kqueue.antt =====
-- tx_kqueue.cpp: the poller of FreeBSD and macOS.
--
-- A `tx_kqueue_t` has the fields of a `tx_epoll_t`, and what the two files do with `tx_holder` is the
-- same text, so the types and helpers of `Epoll` serve here too. `kevent` is the kernel's; it is a
-- parameter, in its two uses, to change what is watched and to wait.
pub mod Balance
pub mod Polling
mod Tests
use libtx.Common.{
  ℕ, Bool, true, false, not, ◌&&◌, ◌||◌, ◌==◌, Option, none, some, List, [], ◌∷◌, ◌++◌,
  if◌then◌else◌,
}
use libtx.Common.Int.{inc, dec}
use libtx.Loop.{tx_poll_active}
use libtx.Aiocb.{AioFlags, Aiocb, Net, PollOps, set_filp, flags_at, with_flags, activate}
use libtx.Epoll.{Epoll, refcnt_to, take_holder, leave_holder, wait_ms}

abbrev pub Kqueue : Type 0 → Type 0
Kqueue K = Epoll K

-- EVFILT_READ and EVFILT_WRITE.
pub data Filter : Type 0 where
  read_filter : Filter
  write_filter : Filter

-- A filter of a descriptor that is added, with EV_ADD and EV_ONESHOT, or deleted, with EV_DELETE.
pub data Change : Type 0 where
  add_once : Filter → Change
  delete : Filter → Change

pub record Kevent : Type 0 where
  pub filp : ℕ
  pub filter : Filter

-- The changes that `tx_kqueue_detach` asks for.
abbrev pub deletions : AioFlags → List Change
deletions f =
    (if f.pollin then delete read_filter ∷ [] else [])
    ++ (if f.pollout then delete write_filter ∷ [] else [])

module _ {K : Type 0} where
  unfoldable pub tx_kqueue_attach : ℕ → Net (Kqueue K) → Net (Kqueue K)
  tx_kqueue_attach p s =
      let f = flags_at s p in
      if (not f.attached && not f.detached) || (f.attached && f.detached)
      then with_flags p (record f { attached = true; detached = false }) s
      else s

  -- What is done for an event of the read filter, and of the write filter.
  unfoldable pub fire_read : ℕ → Net (Kqueue K) → Net (Kqueue K)
  fire_read p s =
      let a = activate (s.filps p).tx_filterin p s in
      set_filp p
        (record (a.filps p) {
          tx_flags = record (flags_at a p) { readable = true; pollin = false };
          tx_filterin = none;
        })
        a

  unfoldable pub fire_write : ℕ → Net (Kqueue K) → Net (Kqueue K)
  fire_write p s =
      let a = activate (s.filps p).tx_filterout p s in
      set_filp p
        (record (a.filps p) {
          tx_flags = record (flags_at a p) { writable = true; pollout = false };
          tx_filterout = none;
        })
        a

  abbrev pub fire : Filter → ℕ → Net (Kqueue K) → Net (Kqueue K)
  fire read_filter p s = fire_read p s
  fire write_filter p s = fire_write p s

  -- One round of the `for` of `tx_kqueue_polling`.
  unfoldable pub handle_event : Kevent → Net (Kqueue K) → Net (Kqueue K)
  handle_event e s = fire e.filter e.filp (refcnt_to (dec s.poll.epoll_refcnt) s)

  unfoldable pub handle_each : List Kevent → Net (Kqueue K) → Net (Kqueue K)
  handle_each [] s = s
  handle_each (e ∷ es) s = handle_each es (handle_event e s)

  -- `kevent_wait` gets how many milliseconds it may wait. An error, which ends the program, is left
  -- out.
  unfoldable pub tx_kqueue_polling : (ℕ → K → List Kevent × K) → Net (Kqueue K) → Net (Kqueue K)
  tx_kqueue_polling kevent_wait s =
      let (events, k) = kevent_wait (wait_ms s) s.poll.kernel in
      let t =
        leave_holder (handle_each events (record s { poll = record s.poll { kernel = k } })) in
      record t { loop = tx_poll_active t.poll.epoll_task t.loop }

  -- `kevent` is given the descriptor and the changes, and returns whether it did not fail.
  module _ (kevent : Option ℕ → List Change → K → Bool × K) where
    abbrev pub changed : ℕ → List Change → Net (Kqueue K) → Bool
    changed p cs s = (kevent (s.filps p).tx_fd cs s.poll.kernel).0

    abbrev pub after_change : ℕ → List Change → Net (Kqueue K) → Net (Kqueue K)
    after_change p cs s = record s {
      poll = record s.poll { kernel = (kevent (s.filps p).tx_fd cs s.poll.kernel).1 };
    }

    -- What is done under `(filp->tx_flags & TX_POLLOUT) == 0`, after the assertion.
    unfoldable pub arm_out : ℕ → Net (Kqueue K) → Net (Kqueue K)
    arm_out p s =
        let cs = add_once write_filter ∷ [] in
        let ok = changed p cs s in
        with_flags p (record (flags_at s p) { pollout = ok })
          (refcnt_to (if ok then inc s.poll.epoll_refcnt else s.poll.epoll_refcnt)
            (after_change p cs s))

    unfoldable pub tx_kqueue_pollout : ℕ → Net (Kqueue K) → Option (Net (Kqueue K))
    tx_kqueue_pollout p s =
        let f = flags_at s p in
        if f.pollout
        then some (take_holder s)
        else if f.attached && not f.detached
        then some (take_holder (arm_out p s))
        else none

    unfoldable pub arm_in : ℕ → Net (Kqueue K) → Net (Kqueue K)
    arm_in p s =
        let cs = add_once read_filter ∷ [] in
        let ok = changed p cs s in
        with_flags p (record (flags_at s p) { pollin = ok })
          (refcnt_to (if ok then inc s.poll.epoll_refcnt else s.poll.epoll_refcnt)
            (after_change p cs s))

    unfoldable pub tx_kqueue_pollin : ℕ → Net (Kqueue K) → Option (Net (Kqueue K))
    tx_kqueue_pollin p s =
        let f = flags_at s p in
        if f.pollin
        then some (take_holder s)
        else if f.attached && not f.detached
        then some (take_holder (arm_in p s))
        else none

    -- The deletion of the filters. With none to delete there is no call, and no error.
    unfoldable pub delete_filters : ℕ → Net (Kqueue K) → Net (Kqueue K)
    delete_filters p s =
        let f = flags_at s p in
        if f.attached && not f.detached
        then (if f.pollin || f.pollout
            then with_flags p (record f { detached = changed p (deletions f) s })
                (after_change p (deletions f) s)
            else with_flags p (record f { detached = true }) s)
        else s

    unfoldable pub tx_kqueue_detach : ℕ → Net (Kqueue K) → Net (Kqueue K)
    tx_kqueue_detach p s =
        let t = delete_filters p s in
        if (flags_at t p).pollin || (flags_at t p).pollout
        then leave_holder (refcnt_to (dec t.poll.epoll_refcnt) t)
        else t

    abbrev pub kqueue_ops : PollOps (Kqueue K)
    kqueue_ops = record {
      tx_pollout = tx_kqueue_pollout;
      tx_pollin = tx_kqueue_pollin;
      tx_attach = tx_kqueue_attach;
      tx_detach = tx_kqueue_detach;
    }
