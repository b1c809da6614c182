-- ===== src/Epoll/Polling.antt =====
-- `tx_epoll_polling` (tx_epoll.cpp): a whole poll, with the events that `epoll_wait` reports.
use libtx.Common.{
  ℕ, ◌≡◌, ◌≤◌, Bool, refl, true, false, ◌||◌, ◌==◌, Option, List, [], ◌∷◌, arith, ◌∙◌, ap,
}
use libtx.Common.Int.{pos, dec}
use libtx.Loop.{tx_task_active, tx_poll_active}
use libtx.Aiocb.{Aiocb, Net}
use libtx.Epoll.{
  CtlOp, CtlResult, done, mod_events, Interest, Event, Epoll, leave_holder, refcnt_to, hang_up,
  fired, tx_epoll_pollit, handle_event, handle_each, tx_epoll_polling, waited,
}
use libtx.Aiocb.Weights.{is_in, NoRepeat, AgreeOff, total-change}
use libtx.Epoll.Count.{bit, is_watched, count, weight, Counted, Watching}
use libtx.Epoll.Holder.{
  grown, poll_active-holder, is_held, active-holder, leave_holder-Watching, loop-Watching,
}
use libtx.Epoll.Balance.{fired-holder, handle_event-counted}

abbrev pub is_reported : ℕ → List Event → Bool
is_reported p [] = false
is_reported p (e ∷ es) = (e.filp == p) || is_reported p es

-- The events are of different descriptors of the set, all of them watched.
abbrev pub Ready : List ℕ → List Event → (ℕ → Aiocb) → Type 0
Ready ps [] f = Unit {0}
Ready ps (e ∷ es) f =
    (is_in e.filp ps ≡ true)
    × (is_watched (f e.filp) ≡ true)
    × (is_reported e.filp es ≡ false)
    × Ready ps es f

bit-le : (b : Bool) → bit b ≤ 1
bit-le true = omega arith
bit-le false = omega arith

module _ {K : Type 0} where
  module _ (ctl' : CtlOp → Option ℕ → Interest → K → CtlResult × K) where
    handle_event-other :
        (e : Event) (s : Net (Epoll K)) → AgreeOff e.filp s.filps (handle_event ctl' e s).filps
    unfolding handle_event hang_up fired tx_epoll_pollit
    handle_event-other e s q ne = ground arith

    handle_event-holder :
        (e : Event) (s : Net (Epoll K)) → (handle_event ctl' e s).loop.tx_holder ≡ s.loop.tx_holder
    unfolding handle_event hang_up tx_epoll_pollit
    handle_event-holder e s =
        let p = e.filp in
        let f = s.filps p in
        let t = refcnt_to (dec s.poll.epoll_refcnt) s in
        ground (
          arith,
          fired-holder e t,
          active-holder f.tx_filterout p s.loop,
          active-holder f.tx_filterin p (tx_task_active f.tx_filterout p s.loop),
        )

    Ready-handle_event :
        (ps : List ℕ) (e : Event) (es : List Event) (s : Net (Epoll K))
        → is_reported e.filp es ≡ false
        → Ready ps es s.filps
        → Ready ps es (handle_event ctl' e s).filps
    Ready-handle_event ps e [] s out r = tt
    Ready-handle_event ps e (x ∷ xs) s out r =
        let ne : (x.filp == e.filp) ≡ false = ground arith in
        (
          r.0,
          ap is_watched (handle_event-other e s x.filp ne) ∙ r.1,
          r.2,
          Ready-handle_event ps e xs s (ground arith) r.3,
        )

    handle_each-holder :
        (es : List Event) (s : Net (Epoll K))
        → (handle_each ctl' es s).loop.tx_holder ≡ s.loop.tx_holder
    unfolding handle_each
    handle_each-holder [] s = refl
    handle_each-holder (e ∷ es) s =
        handle_each-holder es (handle_event ctl' e s) ∙ handle_event-holder e s

    handle_event-count :
        (ps : List ℕ) (e : Event) (s : Net (Epoll K))
        → NoRepeat ps
        → is_in e.filp ps ≡ true
        → is_watched (s.filps e.filp) ≡ true
        → count ps (handle_event ctl' e s).filps ≤ count ps s.filps
    handle_event-count ps e s d i w = omega (
      arith,
      total-change weight ps e.filp s.filps (handle_event ctl' e s).filps (handle_event-other e s) d
          i,
      ap bit w,
      bit-le (is_watched ((handle_event ctl' e s).filps e.filp)),
    )

    handle_each-count :
        (ps : List ℕ) (es : List Event) (s : Net (Epoll K))
        → NoRepeat ps
        → Ready ps es s.filps
        → count ps (handle_each ctl' es s).filps ≤ count ps s.filps
    unfolding handle_each
    handle_each-count ps [] s d r = omega arith
    handle_each-count ps (e ∷ es) s d r = omega (
      arith,
      handle_event-count ps e s d r.0 r.1,
      handle_each-count ps es (handle_event ctl' e s) d (Ready-handle_event ps e es s r.2 r.3),
    )

    module _
        (rearms : (fd : Option ℕ) (i : Interest) (k : K) → (ctl' mod_events fd i k).0 ≡ done) where
      handle_each-counted :
          (ps : List ℕ) (es : List Event) (s : Net (Epoll K))
          → NoRepeat ps
          → Ready ps es s.filps
          → s.poll.epoll_refcnt ≡ pos (count ps s.filps)
          → (handle_each ctl' es s).poll.epoll_refcnt ≡ pos (count ps (handle_each ctl' es s).filps)
      unfolding handle_each
      handle_each-counted ps [] s d r c = c
      handle_each-counted ps (e ∷ es) s d r c =
          handle_each-counted ps es (handle_event ctl' e s) d (Ready-handle_event ps e es s r.2 r.3)
            (handle_event-counted ctl' rearms ps e s d r.0 r.1 c)

      handle_each-Counted :
          (ps : List ℕ) (es : List Event) (s : Net (Epoll K))
          → NoRepeat ps
          → Ready ps es s.filps
          → Counted ps s
          → Counted ps (handle_each ctl' es s)
      handle_each-Counted ps es s d r v =
          let c = handle_each-counted ps es s d r v.counted in
          record {
            counted = c;
            taken = λ h.
                ap is_held (handle_each-holder es s)
                ∙ v.taken (grown v.counted c (handle_each-count ps es s d r) h);
          }

      -- A whole poll, if the kernel reports each descriptor at most once, and only watched ones.
      pub polling-Watching :
          (epoll_wait : ℕ → K → List Event × K) (ps : List ℕ) (s : Net (Epoll K))
          → NoRepeat ps
          → Ready ps (waited ctl' epoll_wait s).0 s.filps
          → Watching ps s
          → Watching ps (tx_epoll_polling ctl' epoll_wait s)
      unfolding tx_epoll_polling
      polling-Watching epoll_wait ps s d r v =
          let k = (waited ctl' epoll_wait s).1 in
          let t = record s { poll = record s.poll { kernel = k } } in
          let u = handle_each ctl' (waited ctl' epoll_wait s).0 t in
          let w = leave_holder-Watching weight u (
            handle_each-Counted ps (waited ctl' epoll_wait s).0 t d r
              (record { counted = v.exact.counted; taken = v.exact.taken })) in
          let x = leave_holder u in
          loop-Watching weight x (tx_poll_active x.poll.epoll_task x.loop)
            (poll_active-holder x.poll.epoll_task x.loop) w
