-- ===== src/Epoll/Balance.antt =====
-- What the operations of tx_epoll.cpp do to `epoll_refcnt` and `tx_holder`.
use libtx.Common.{
  ℕ, zero, suc, ◌<◌, ◌∙◌, ap, ◌-◌, ◌+◌, ◌||◌, if◌then◌else◌, ◌≡◌, true, false, Option, List, arith,
  Bool-cases, inl, inr,
}
use libtx.Common.Int.{pos, inc, dec}
use libtx.Loop.{tx_task_active}
use libtx.Aiocb.{Aiocb, Net, flags_at}
use libtx.Epoll.{
  CtlOp, CtlResult, done, mod_events, del, Interest, Epoll, no_events, is_done, ctl, arm_out,
  arm_in, tx_epoll_pollit, delete_fd, hang_up, fired, Event, handle_event,
}
use libtx.Aiocb.Weights.{is_in, NoRepeat, AgreeOff, total-update, total-change, total-pos}
use libtx.Epoll.Count.{bit, is_watched, count, weight}
use libtx.Epoll.Holder.{active-holder}

watched-attached : (f : Aiocb) → is_watched f ≡ true → f.tx_flags.detached ≡ false
watched-attached f w = ground arith

watched-pos : (f : Aiocb) → is_watched f ≡ true → 0 < weight f
watched-pos f w = omega (arith, ap bit w)

dec-pos : {n : ℕ} → 0 < n → dec (pos n) ≡ pos (n - 1)
unfolding dec
dec-pos {n = zero} h = absurd (omega arith)
dec-pos {n = suc n} h = ap pos (omega arith)

module _ {K : Type 0} where
  -- A watched descriptor that hangs up is watched no more.
  pub hang_up-counted :
      (ps : List ℕ) (p : ℕ) (s : Net (Epoll K))
      → NoRepeat ps
      → is_in p ps ≡ true
      → is_watched (s.filps p) ≡ true
      → s.poll.epoll_refcnt ≡ pos (count ps s.filps)
      → dec s.poll.epoll_refcnt ≡ pos (count ps (hang_up p s).filps)
  unfolding hang_up dec
  hang_up-counted ps p s d i w c =
      ground (arith, total-update weight ps s.filps p ((hang_up p s).filps p) d i)

  module _ (ps : List ℕ) (ctl' : CtlOp → Option ℕ → Interest → K → CtlResult × K) (p : ℕ)
      (s : Net (Epoll K)) (d : NoRepeat ps) (i : is_in p ps ≡ true) where
    pub arm_out-counted :
        (flags_at s p).pollout ≡ false
        → (flags_at s p).detached ≡ false
        → s.poll.epoll_refcnt ≡ pos (count ps s.filps)
        → (arm_out ctl' p s).poll.epoll_refcnt ≡ pos (count ps (arm_out ctl' p s).filps)
    unfolding arm_out inc
    arm_out-counted o x c =
        ground (arith, total-update weight ps s.filps p ((arm_out ctl' p s).filps p) d i)

    pub arm_in-counted :
        (flags_at s p).pollin ≡ false
        → (flags_at s p).detached ≡ false
        → s.poll.epoll_refcnt ≡ pos (count ps s.filps)
        → (arm_in ctl' p s).poll.epoll_refcnt ≡ pos (count ps (arm_in ctl' p s).filps)
    unfolding arm_in inc
    arm_in-counted o x c =
        ground (arith, total-update weight ps s.filps p ((arm_in ctl' p s).filps p) d i)

    pub delete_fd-counted :
        is_watched (s.filps p) ≡ true
        → (flags_at s p).attached ≡ true
        → is_done (ctl ctl' del p no_events s) ≡ true
        → s.poll.epoll_refcnt ≡ pos (count ps s.filps)
        → dec s.poll.epoll_refcnt ≡ pos (count ps (delete_fd ctl' p s).filps)
    unfolding delete_fd dec
    delete_fd-counted w a k c =
        ground (arith, total-update weight ps s.filps p ((delete_fd ctl' p s).filps p) d i)

  pub fired-other : (e : Event) (s : Net (Epoll K)) → AgreeOff e.filp s.filps (fired e s).filps
  unfolding fired
  fired-other e s q ne = ground arith

  pub fired-count :
      (ps : List ℕ) (e : Event) (s : Net (Epoll K))
      → NoRepeat ps
      → is_in e.filp ps ≡ true
      → count ps (fired e s).filps + bit (is_watched (s.filps e.filp))
        ≡ count ps s.filps + bit (is_watched ((fired e s).filps e.filp))
  fired-count ps e s d i =
      total-change weight ps e.filp s.filps (fired e s).filps (fired-other e s) d i

  pub fired-holder : (e : Event) (s : Net (Epoll K)) → (fired e s).loop.tx_holder ≡ s.loop.tx_holder
  unfolding fired
  fired-holder e s = ground (
    arith,
    active-holder (s.filps e.filp).tx_filterout e.filp s.loop,
    active-holder (s.filps e.filp).tx_filterin e.filp s.loop,
    active-holder (s.filps e.filp).tx_filterin e.filp
        (tx_task_active (s.filps e.filp).tx_filterout e.filp s.loop),
  )

  pub fired-poll : (e : Event) (s : Net (Epoll K)) → (fired e s).poll ≡ s.poll
  unfolding fired
  fired-poll e s = ground arith

  pub fired-detached :
      (e : Event) (s : Net (Epoll K))
      → (flags_at (fired e s) e.filp).detached ≡ (flags_at s e.filp).detached
  unfolding fired
  fired-detached e s = ground arith

  module _ (ctl' : CtlOp → Option ℕ → Interest → K → CtlResult × K)
      (rearms : (fd : Option ℕ) (i : Interest) (k : K) → (ctl' mod_events fd i k).0 ≡ done) where
    -- What follows `fired`: a descriptor that is still polled is armed again.
    rearmed-counted :
        (ps : List ℕ) (p : ℕ) (v : Net (Epoll K)) (n : ℕ)
        → (flags_at v p).detached ≡ false
        → v.poll.epoll_refcnt ≡ pos n
        → count ps v.filps ≡ n + bit (is_watched (v.filps p))
        → let r =
            if (flags_at v p).pollin || (flags_at v p).pollout
            then tx_epoll_pollit ctl' p v
            else v in
          r.poll.epoll_refcnt ≡ pos (count ps r.filps)
    unfolding tx_epoll_pollit inc
    rearmed-counted ps p v n x c e = ground (
      arith,
      rearms (v.filps p).tx_fd
          (record {
            want_in = (flags_at v p).pollin;
            want_out = (flags_at v p).pollout;
            oneshot = true;
          })
          v.poll.kernel,
    )

    pub handle_event-counted :
        (ps : List ℕ) (e : Event) (s : Net (Epoll K))
        → NoRepeat ps
        → is_in e.filp ps ≡ true
        → is_watched (s.filps e.filp) ≡ true
        → s.poll.epoll_refcnt ≡ pos (count ps s.filps)
        → (handle_event ctl' e s).poll.epoll_refcnt ≡ pos (count ps (handle_event ctl' e s).filps)
    unfolding handle_event hang_up dec fired
    handle_event-counted ps e s d i w c = elim (Bool-cases e.hup) [
      | inl h ↦ rw h (hang_up-counted ps e.filp s d i w c)
      | inr h ↦
          let t = record s { poll = record s.poll { epoll_refcnt = dec s.poll.epoll_refcnt } } in
          rw h (
            rearmed-counted ps e.filp (fired e t) (count ps s.filps - 1)
              (fired-detached e t ∙ watched-attached (s.filps e.filp) w)
              (ap (λ (q : Epoll K). q.epoll_refcnt) (fired-poll e t)
                ∙ ap dec c
                ∙ dec-pos (total-pos weight ps e.filp s.filps i (watched-pos (s.filps e.filp) w)))
              (omega (
                arith,
                fired-count ps e t d i,
                ap bit w,
                total-pos weight ps e.filp s.filps i (watched-pos (s.filps e.filp) w),
              )))
    ]
