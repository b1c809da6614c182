-- ===== src/Kqueue/Polling.antt =====
-- `tx_kqueue_polling` (tx_kqueue.cpp): a whole poll, with the events that `kevent` reports.
use libtx.Common.{
  ℕ, ◌≤◌, ◌≡◌, refl, Bool, true, false, ◌&&◌, ◌||◌, ◌==◌, List, [], ◌∷◌, arith, ap, ◌∙◌,
}
use libtx.Common.Int.{pos, dec}
use libtx.Loop.{tx_poll_active}
use libtx.Aiocb.{Aiocb, Net}
use libtx.Aiocb.Weights.{is_in, NoRepeat, total, total-update}
use libtx.Epoll.{leave_holder, wait_ms}
use libtx.Epoll.Holder.{
  grown, poll_active-holder, Counted, Watching, is_held, active-holder, leave_holder-Watching,
  loop-Watching,
}
use libtx.Kqueue.{
  Kqueue, Filter, read_filter, write_filter, Kevent, fire_read, fire_write, handle_event,
  handle_each, tx_kqueue_polling,
}
use libtx.Kqueue.Balance.{filters, has_filter}

abbrev pub same_filter : Filter → Filter → Bool
same_filter read_filter read_filter = true
same_filter write_filter write_filter = true
same_filter _ _ = false

abbrev pub is_reported : Kevent → List Kevent → Bool
is_reported e [] = false
is_reported e (x ∷ xs) = ((x.filp == e.filp) && same_filter x.filter e.filter) || is_reported e xs

-- The events are of different filters, all of them added.
abbrev pub Ready : List ℕ → List Kevent → (ℕ → Aiocb) → Type 0
Ready ps [] f = Unit {0}
Ready ps (e ∷ es) f =
    (is_in e.filp ps ≡ true)
    × (has_filter e.filter (f e.filp) ≡ true)
    × (is_reported e es ≡ false)
    × Ready ps es f

module _ {K : Type 0} where
  handle_event-counted :
      (ps : List ℕ) (e : Kevent) (s : Net (Kqueue K))
      → NoRepeat ps
      → is_in e.filp ps ≡ true
      → has_filter e.filter (s.filps e.filp) ≡ true
      → s.poll.epoll_refcnt ≡ pos (total filters ps s.filps)
      → ((handle_event e s).poll.epoll_refcnt ≡ pos (total filters ps (handle_event e s).filps))
        × (total filters ps (handle_event e s).filps ≤ total filters ps s.filps)
  unfolding handle_event fire_read fire_write dec
  handle_event-counted ps e s d i w c =
      ground (arith, total-update filters ps s.filps e.filp ((handle_event e s).filps e.filp) d i)

  handle_event-holder :
      (e : Kevent) (s : Net (Kqueue K)) → (handle_event e s).loop.tx_holder ≡ s.loop.tx_holder
  unfolding handle_event fire_read fire_write
  handle_event-holder e s = ground (
    arith,
    active-holder (s.filps e.filp).tx_filterin e.filp s.loop,
    active-holder (s.filps e.filp).tx_filterout e.filp s.loop,
  )

  handle_event-filter :
      (e x : Kevent) (s : Net (Kqueue K))
      → ((x.filp == e.filp) && same_filter x.filter e.filter) ≡ false
      → has_filter x.filter ((handle_event e s).filps x.filp) ≡ has_filter x.filter (s.filps x.filp)
  unfolding handle_event fire_read fire_write
  handle_event-filter e x s ne = ground arith

  Ready-handle_event :
      (ps : List ℕ) (e : Kevent) (es : List Kevent) (s : Net (Kqueue K))
      → is_reported e es ≡ false
      → Ready ps es s.filps
      → Ready ps es (handle_event e s).filps
  Ready-handle_event ps e [] s out r = tt
  Ready-handle_event ps e (x ∷ xs) s out r = (
    r.0,
    handle_event-filter e x s (ground arith) ∙ r.1,
    r.2,
    Ready-handle_event ps e xs s (ground arith) r.3,
  )

  -- What the events do to the count.
  record Handled (ps : List ℕ) (s t : Net (Kqueue K)) : Type 0 where
    counted : t.poll.epoll_refcnt ≡ pos (total filters ps t.filps)
    less : total filters ps t.filps ≤ total filters ps s.filps
    holder : t.loop.tx_holder ≡ s.loop.tx_holder

  handle_each-Handled :
      (ps : List ℕ) (es : List Kevent) (s : Net (Kqueue K))
      → NoRepeat ps
      → Ready ps es s.filps
      → s.poll.epoll_refcnt ≡ pos (total filters ps s.filps)
      → Handled ps s (handle_each es s)
  unfolding handle_each
  handle_each-Handled ps [] s d r c = record { counted = c; less = omega arith; holder = refl }
  handle_each-Handled ps (e ∷ es) s d r c =
      let here = handle_event-counted ps e s d r.0 r.1 c in
      let rest =
        handle_each-Handled ps es (handle_event e s) d (Ready-handle_event ps e es s r.2 r.3)
          here.0 in
      record {
        counted = rest.counted;
        less = omega (arith, here.1, rest.less);
        holder = rest.holder ∙ handle_event-holder e s;
      }

  Handled-Counted :
      {ps : List ℕ} (s t : Net (Kqueue K))
      → Handled ps s t
      → Counted filters ps s
      → Counted filters ps t
  Handled-Counted s t h v = record {
    counted = h.counted;
    taken = λ p. ap is_held h.holder ∙ v.taken (grown v.counted h.counted h.less p);
  }

  -- A whole poll keeps `epoll_refcnt` equal to the number of added filters of a list of descriptors
  -- without repetition, and the hold on the loop exact, if the kernel reports added filters of these
  -- only, each at most once.
  pub polling-Watching :
      (kevent_wait : ℕ → K → List Kevent × K) (ps : List ℕ) (s : Net (Kqueue K))
      → NoRepeat ps
      → Ready ps (kevent_wait (wait_ms s) s.poll.kernel).0 s.filps
      → Watching filters ps s
      → Watching filters ps (tx_kqueue_polling kevent_wait s)
  unfolding tx_kqueue_polling
  polling-Watching kevent_wait ps s d r v =
      let got = kevent_wait (wait_ms s) s.poll.kernel in
      let t = record s { poll = record s.poll { kernel = got.1 } } in
      let u = handle_each got.0 t in
      let h = handle_each-Handled ps got.0 t d r v.exact.counted in
      let w =
        leave_holder-Watching filters u
          (Handled-Counted t u h (record { counted = v.exact.counted; taken = v.exact.taken })) in
      let x = leave_holder u in
      loop-Watching filters x (tx_poll_active x.poll.epoll_task x.loop)
        (poll_active-holder x.poll.epoll_task x.loop) w
