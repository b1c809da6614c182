-- ===== src/Kqueue/Balance.antt =====
-- What the operations of tx_kqueue.cpp do to `epoll_refcnt`, as a count of added filters.
use libtx.Common.{
  ℕ, ◌+◌, ◌≡◌, ◌≢◌, refl, Bool, true, false, not, ◌&&◌, Option, none, some, List, arith, if_cases,
}
use libtx.Common.Int.{pos, inc, dec, is_positive}
use libtx.Aiocb.{Aiocb, Net, flags_at}
use libtx.Aiocb.Weights.{is_in, NoRepeat, total, total-update}
use libtx.Epoll.{leave_holder, is_self}
use libtx.Epoll.Holder.{Watching, take_holder-Watching}
use libtx.Epoll.Count.{bit}
use libtx.Kqueue.{
  Kqueue, Filter, read_filter, write_filter, Change, deletions, changed, arm_in, arm_out,
  tx_kqueue_pollin, tx_kqueue_pollout, delete_filters, tx_kqueue_detach,
}

-- How many filters of a descriptor the kernel watches.
abbrev pub filters : Aiocb → ℕ
filters f =
    bit (f.tx_flags.pollin && not f.tx_flags.detached)
    + bit (f.tx_flags.pollout && not f.tx_flags.detached)

-- The filter is added.
abbrev pub has_filter : Filter → Aiocb → Bool
has_filter read_filter f = f.tx_flags.pollin && not f.tx_flags.detached
has_filter write_filter f = f.tx_flags.pollout && not f.tx_flags.detached

module _ {K : Type 0} (kevent : Option ℕ → List Change → K → Bool × K) where
  abbrev pub Kept : List ℕ → Option (Net (Kqueue K)) → Type 0
  Kept ps none = Unit {0}
  Kept ps (some t) = Watching filters ps t

  returned :
      {ps : List ℕ} (o : Option (Net (Kqueue K)))
      → o ≢ none
      → Kept ps o
      → (t : Net (Kqueue K)) × (o ≡ some t) × Watching filters ps t
  returned none ne k = absurd (ne refl)
  returned (some t) ne k = (t, refl, k)

  arm_out-held :
      (p : ℕ) (s : Net (Kqueue K))
      → (is_self s.loop.tx_holder s.poll.self ≡ true → is_positive s.poll.epoll_refcnt ≡ true)
      → is_self (arm_out kevent p s).loop.tx_holder (arm_out kevent p s).poll.self ≡ true
      → is_positive (arm_out kevent p s).poll.epoll_refcnt ≡ true
  unfolding arm_out inc is_positive
  arm_out-held p s h e = ground (arith, h)

  arm_in-held :
      (p : ℕ) (s : Net (Kqueue K))
      → (is_self s.loop.tx_holder s.poll.self ≡ true → is_positive s.poll.epoll_refcnt ≡ true)
      → is_self (arm_in kevent p s).loop.tx_holder (arm_in kevent p s).poll.self ≡ true
      → is_positive (arm_in kevent p s).poll.epoll_refcnt ≡ true
  unfolding arm_in inc is_positive
  arm_in-held p s h e = ground (arith, h)

  module _ (ps : List ℕ) (p : ℕ) (s : Net (Kqueue K)) (d : NoRepeat ps)
      (i : is_in p ps ≡ true) where
    arm_out-counted :
        (flags_at s p).pollout ≡ false
        → (flags_at s p).detached ≡ false
        → s.poll.epoll_refcnt ≡ pos (total filters ps s.filps)
        → (arm_out kevent p s).poll.epoll_refcnt ≡ pos (total filters ps (arm_out kevent p s).filps)
    unfolding arm_out inc
    arm_out-counted o x c =
        ground (arith, total-update filters ps s.filps p ((arm_out kevent p s).filps p) d i)

    arm_in-counted :
        (flags_at s p).pollin ≡ false
        → (flags_at s p).detached ≡ false
        → s.poll.epoll_refcnt ≡ pos (total filters ps s.filps)
        → (arm_in kevent p s).poll.epoll_refcnt ≡ pos (total filters ps (arm_in kevent p s).filps)
    unfolding arm_in inc
    arm_in-counted o x c =
        ground (arith, total-update filters ps s.filps p ((arm_in kevent p s).filps p) d i)

    pollin-ne-none :
        (flags_at s p).attached ≡ true
        → (flags_at s p).detached ≡ false
        → tx_kqueue_pollin kevent p s ≢ none
    unfolding tx_kqueue_pollin
    pollin-ne-none a x = ground arith

    pollout-ne-none :
        (flags_at s p).attached ≡ true
        → (flags_at s p).detached ≡ false
        → tx_kqueue_pollout kevent p s ≢ none
    unfolding tx_kqueue_pollout
    pollout-ne-none a x = ground arith

    module _ (v : Watching filters ps s) where
      pub pollout-Kept : Kept ps (tx_kqueue_pollout kevent p s)
      unfolding tx_kqueue_pollout
      pollout-Kept =
          if_cases (Kept ps) (flags_at s p).pollout
            (λ _. take_holder-Watching filters s v.exact.counted v.held)
            (λ o.
              if_cases (Kept ps) ((flags_at s p).attached && not (flags_at s p).detached)
                (λ a.
                  take_holder-Watching filters (arm_out kevent p s)
                    (arm_out-counted o (ground arith) v.exact.counted) (arm_out-held p s v.held))
                (λ _. tt))

      pub pollin-Kept : Kept ps (tx_kqueue_pollin kevent p s)
      unfolding tx_kqueue_pollin
      pollin-Kept =
          if_cases (Kept ps) (flags_at s p).pollin
            (λ _. take_holder-Watching filters s v.exact.counted v.held)
            (λ o.
              if_cases (Kept ps) ((flags_at s p).attached && not (flags_at s p).detached)
                (λ a.
                  take_holder-Watching filters (arm_in kevent p s)
                    (arm_in-counted o (ground arith) v.exact.counted) (arm_in-held p s v.held))
                (λ _. tt))

    -- On a descriptor of a list without repetition that is attached, `tx_kqueue_pollin` and
    -- `tx_kqueue_pollout` pass their assertion, and `epoll_refcnt` stays equal to the number of added
    -- filters of the list, and the hold on the loop exact, whether the kernel takes the filter or not.
    pub requests-Watching :
        (flags_at s p).attached ≡ true
        → (flags_at s p).detached ≡ false
        → Watching filters ps s
        → ((t : Net (Kqueue K)) × (tx_kqueue_pollin kevent p s ≡ some t) × Watching filters ps t)
          × ((t : Net (Kqueue K)) × (tx_kqueue_pollout kevent p s ≡ some t) × Watching filters ps t)
    requests-Watching a x v = (
      returned (tx_kqueue_pollin kevent p s) (pollin-ne-none a x) (pollin-Kept v),
      returned (tx_kqueue_pollout kevent p s) (pollout-ne-none a x) (pollout-Kept v),
    )

    -- If `epoll_refcnt` is the number of added filters, and the kernel deletes those of an attached
    -- descriptor, then after its `tx_kqueue_detach` `epoll_refcnt` is the number of added filters, and
    -- one more if the descriptor was polled both for reading and for writing.
    pub detach-counted :
        (flags_at s p).attached ≡ true
        → (flags_at s p).detached ≡ false
        → changed kevent p (deletions (flags_at s p)) s ≡ true
        → s.poll.epoll_refcnt ≡ pos (total filters ps s.filps)
        → (tx_kqueue_detach kevent p s).poll.epoll_refcnt
          ≡ pos (
              total filters ps (tx_kqueue_detach kevent p s).filps
              + bit ((flags_at s p).pollin && (flags_at s p).pollout))
    unfolding tx_kqueue_detach delete_filters leave_holder dec
    detach-counted a x k c =
        ground
          (arith, total-update filters ps s.filps p ((tx_kqueue_detach kevent p s).filps p) d i)
