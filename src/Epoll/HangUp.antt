-- ===== src/Epoll/HangUp.antt =====
-- Hang-ups of descriptors that nobody polls (tx_epoll.cpp).
use libtx.Common.{ℕ, ◌≡◌, true, false, Option, List, arith}
use libtx.Common.Int.{pos, dec}
use libtx.Aiocb.{Net}
use libtx.Epoll.{CtlOp, CtlResult, Interest, Event, Epoll, handle_event, hang_up}
use libtx.Aiocb.Weights.{is_in, NoRepeat, total-update}
use libtx.Epoll.Count.{is_watched, count, weight, Counted}

module _ {K : Type 0} (ctl' : CtlOp → Option ℕ → Interest → K → CtlResult × K) where
  -- If the count is exact, then after an event with EPOLLHUP or EPOLLERR of a descriptor that is not
  -- watched `epoll_refcnt` is one less than the number of watched descriptors.
  pub hang_up-unwatched :
      (ps : List ℕ) (e : Event) (s : Net (Epoll K))
      → NoRepeat ps
      → is_in e.filp ps ≡ true
      → is_watched (s.filps e.filp) ≡ false
      → e.hup ≡ true
      → Counted ps s
      → (handle_event ctl' e s).poll.epoll_refcnt
        ≡ dec (pos (count ps (handle_event ctl' e s).filps))
  unfolding handle_event hang_up
  hang_up-unwatched ps e s d i u h c = ground (
    arith,
    c.counted,
    total-update weight ps s.filps e.filp ((handle_event ctl' e s).filps e.filp) d i,
  )
