-- ===== src/Epoll/Operations.antt =====
-- The four operations of the poller (tx_epoll.cpp) that tx_aiocb.cpp calls.
use libtx.Common.{
  ℕ, ◌≡◌, true, false, not, ◌&&◌, ◌||◌, Option, none, some, List, arith, ◌∙◌, ap, sym, if_cases,
}
use libtx.Common.Int.{ℤ, inc, dec, is_positive}
use libtx.Aiocb.{Aiocb, Net, flags_at}
use libtx.Epoll.{
  CtlOp, CtlResult, del, Interest, Epoll, ctl, no_events, is_done, refcnt_to, add, attach_flags,
  after_ctl, is_self, arm_in, arm_out, delete_fd, tx_epoll_pollin, tx_epoll_pollout,
  tx_epoll_attach, tx_epoll_detach,
}
use libtx.Aiocb.Weights.{is_in, NoRepeat}
use libtx.Epoll.Count.{is_watched, weight, Counted, Watching}
use libtx.Epoll.Holder.{
  is_held, take_holder-Watching, leave_holder-Watching, kernel-Watching, set_filp-Watching,
}
use libtx.Epoll.Balance.{arm_out-counted, arm_in-counted, delete_fd-counted}

dec-positive : (a : ℤ) → is_positive (dec a) ≡ true → is_positive a ≡ true
unfolding dec is_positive
dec-positive a h = ground arith

module _ {K : Type 0} (ctl' : CtlOp → Option ℕ → Interest → K → CtlResult × K) where
  arm_out-held :
      (p : ℕ) (s : Net (Epoll K))
      → (is_self s.loop.tx_holder s.poll.self ≡ true → is_positive s.poll.epoll_refcnt ≡ true)
      → is_self (arm_out ctl' p s).loop.tx_holder (arm_out ctl' p s).poll.self ≡ true
      → is_positive (arm_out ctl' p s).poll.epoll_refcnt ≡ true
  unfolding arm_out inc is_positive
  arm_out-held p s h e = ground (arith, h)

  arm_in-held :
      (p : ℕ) (s : Net (Epoll K))
      → (is_self s.loop.tx_holder s.poll.self ≡ true → is_positive s.poll.epoll_refcnt ≡ true)
      → is_self (arm_in ctl' p s).loop.tx_holder (arm_in ctl' p s).poll.self ≡ true
      → is_positive (arm_in ctl' p s).poll.epoll_refcnt ≡ true
  unfolding arm_in inc is_positive
  arm_in-held p s h e = ground (arith, h)

  -- Where a call returns, the invariant holds.
  abbrev pub Kept : List ℕ → Option (Net (Epoll K)) → Type 0
  Kept ps none = Unit {0}
  Kept ps (some t) = Watching ps t

  attach_unwatched :
      (r : CtlResult) (f : Aiocb)
      → f.tx_flags.pollin ≡ false
      → f.tx_flags.pollout ≡ false
      → weight (record f { tx_flags = attach_flags r f.tx_flags }) ≡ weight f
  attach_unwatched r f a b = ground arith

  delete_fd-refcnt :
      (p : ℕ) (s : Net (Epoll K)) → (delete_fd ctl' p s).poll.epoll_refcnt ≡ s.poll.epoll_refcnt
  unfolding delete_fd
  delete_fd-refcnt p s = ground arith

  delete_fd-holder :
      (p : ℕ) (s : Net (Epoll K)) → (delete_fd ctl' p s).loop.tx_holder ≡ s.loop.tx_holder
  unfolding delete_fd
  delete_fd-holder p s = ground arith

  delete_fd-watched :
      (p : ℕ) (s : Net (Epoll K))
      → ((flags_at (delete_fd ctl' p s) p).pollin || (flags_at (delete_fd ctl' p s) p).pollout)
        ≡ true
      → (flags_at s p).detached ≡ false
      → is_watched (s.filps p) ≡ true
  unfolding delete_fd
  delete_fd-watched p s h b = ground arith

  delete_fd-unwatched :
      (p : ℕ) (s : Net (Epoll K))
      → ((flags_at (delete_fd ctl' p s) p).pollin || (flags_at (delete_fd ctl' p s) p).pollout)
        ≡ false
      → is_watched (s.filps p) ≡ false
  unfolding delete_fd
  delete_fd-unwatched p s h = ground arith

  module _ {ps : List ℕ} (p : ℕ) (s : Net (Epoll K)) (d : NoRepeat ps) (i : is_in p ps ≡ true)
      (v : Watching ps s) where
    pub pollout-Kept : Kept ps (tx_epoll_pollout ctl' p s)
    unfolding tx_epoll_pollout
    pollout-Kept =
        if_cases (Kept ps) (flags_at s p).pollout
          (λ _. take_holder-Watching weight s v.exact.counted v.held)
          (λ o.
            if_cases (Kept ps) ((flags_at s p).attached && not (flags_at s p).detached)
              (λ a.
                take_holder-Watching weight (arm_out ctl' p s)
                  (arm_out-counted ps ctl' p s d i o (ground arith) v.exact.counted)
                  (arm_out-held p s v.held))
              (λ _. tt))

    pub pollin-Kept : Kept ps (tx_epoll_pollin ctl' p s)
    unfolding tx_epoll_pollin
    pollin-Kept =
        if_cases (Kept ps) (flags_at s p).pollin
          (λ _. take_holder-Watching weight s v.exact.counted v.held)
          (λ o.
            if_cases (Kept ps) ((flags_at s p).attached && not (flags_at s p).detached)
              (λ a.
                take_holder-Watching weight (arm_in ctl' p s)
                  (arm_in-counted ps ctl' p s d i o (ground arith) v.exact.counted)
                  (arm_in-held p s v.held))
              (λ _. tt))

    pub attach-Watching :
        (flags_at s p).pollin ≡ false
        → (flags_at s p).pollout ≡ false
        → Watching ps (tx_epoll_attach ctl' p s)
    unfolding tx_epoll_attach
    attach-Watching a b =
        if_cases (Watching ps)
          ((not (flags_at s p).attached && not (flags_at s p).detached)
            || ((flags_at s p).attached && (flags_at s p).detached))
          (λ _.
            set_filp-Watching weight p _ (after_ctl ctl' add p no_events s) d i
              (attach_unwatched (ctl ctl' add p no_events s) (s.filps p) a b)
              (kernel-Watching weight s _ v))
          (λ _. v)

    delete_fd-Watching :
        is_watched (s.filps p) ≡ false
        → (flags_at s p).detached ≡ false
        → Watching ps (delete_fd ctl' p s)
    unfolding delete_fd
    delete_fd-Watching u x =
        if_cases (Watching ps) ((flags_at s p).attached && not (flags_at s p).detached)
          (λ _.
            set_filp-Watching weight p _ (after_ctl ctl' del p no_events s) d i (ground arith)
              (kernel-Watching weight s _ v))
          (λ _. v)

    delete_fd-Counted :
        is_watched (s.filps p) ≡ true
        → (flags_at s p).attached ≡ true
        → is_done (ctl ctl' del p no_events s) ≡ true
        → Counted ps (refcnt_to (dec (delete_fd ctl' p s).poll.epoll_refcnt) (delete_fd ctl' p s))
    delete_fd-Counted w a k = record {
      counted =
          ap dec (delete_fd-refcnt p s) ∙ delete_fd-counted ps ctl' p s d i w a k v.exact.counted;
      taken = λ h.
          ap is_held (delete_fd-holder p s)
          ∙ v.exact.taken
              (dec-positive _ (ap is_positive (ap dec (sym (delete_fd-refcnt p s))) ∙ h));
    }

    -- A descriptor leaves the poller, if the kernel lets it go.
    pub detach-Watching :
        (flags_at s p).attached ≡ true
        → (flags_at s p).detached ≡ false
        → is_done (ctl ctl' del p no_events s) ≡ true
        → Watching ps (tx_epoll_detach ctl' p s)
    unfolding tx_epoll_detach
    detach-Watching a b k =
        let t = delete_fd ctl' p s in
        if_cases (Watching ps) ((flags_at t p).pollin || (flags_at t p).pollout)
          (λ polled.
            leave_holder-Watching weight (refcnt_to (dec t.poll.epoll_refcnt) t)
              (delete_fd-Counted (delete_fd-watched p s polled b) a k))
          (λ not_polled. delete_fd-Watching (delete_fd-unwatched p s not_polled) b)
