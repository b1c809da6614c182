-- ===== src/Epoll/Descriptors.antt =====
-- The functions of tx_aiocb.cpp under the poller of tx_epoll.cpp, and the count of watched
-- descriptors.
use libtx.Common.{
  ℕ, ◌≡◌, refl, Bool, true, false, ◌&&◌, Option, none, some, List, arith, ap, sym, if_cases,
}
use libtx.Loop.{tx_task_active}
use libtx.Aiocb.{
  Net, Connected, at_once, in_progress, refused, blank, flags_at, set_filp, activate,
  generic_active_in, generic_active_out, generic_cancel_in, generic_cancel_out, tx_aincb_update,
  tx_outcb_update, tx_aiocb_init, tx_listen_init, tx_aiocb_connect, tx_aiocb_fini, same_task,
  fini_fd,
}
use libtx.Epoll.{CtlOp, CtlResult, del, Interest, Epoll, ctl, no_events, is_done, epoll_ops}
use libtx.Epoll.Operations.{Kept, pollin-Kept, pollout-Kept, attach-Watching, detach-Watching}
use libtx.Aiocb.Weights.{is_in, NoRepeat}
use libtx.Epoll.Count.{bit, is_watched, weight, Watching}
use libtx.Epoll.Holder.{active-holder, loop-Watching, set_filp-Watching}

module _ {K : Type 0} (ctl' : CtlOp → Option ℕ → Interest → K → CtlResult × K) where
  activate-Watching :
      {ps : List ℕ} (t : Option ℕ) (reason : ℕ) (s : Net (Epoll K))
      → Watching ps s
      → Watching ps (activate t reason s)
  activate-Watching t reason s v =
      loop-Watching weight s (tx_task_active t reason s.loop) (active-holder t reason s.loop) v

  module _ {ps : List ℕ} (p : ℕ) (s : Net (Epoll K)) (d : NoRepeat ps) (i : is_in p ps ≡ true)
      (v : Watching ps s) where
    pub active_out-Kept :
        (task : Option ℕ) → Kept ctl' ps (generic_active_out (epoll_ops ctl') p task s)
    unfolding generic_active_out
    active_out-Kept task =
        let t = set_filp p (record (s.filps p) { tx_filterout = task }) s in
        let w : Watching ps t = set_filp-Watching weight p _ s d i refl v in
        if_cases (Kept ctl' ps) (flags_at s p).writable (λ _. activate-Watching task p s v)
          (λ _.
            if_cases (Kept ctl' ps) (flags_at s p).pollout (λ _. w)
              (λ _. pollout-Kept ctl' p t d i w))

    pub active_in-Kept :
        (task : Option ℕ) → Kept ctl' ps (generic_active_in (epoll_ops ctl') p task s)
    unfolding generic_active_in
    active_in-Kept task =
        let t = set_filp p (record (s.filps p) { tx_filterin = task }) s in
        let w : Watching ps t = set_filp-Watching weight p _ s d i refl v in
        if_cases (Kept ctl' ps) (flags_at s p).readable (λ _. activate-Watching task p s v)
          (λ _.
            if_cases (Kept ctl' ps) (flags_at s p).pollin (λ _. w)
              (λ _. pollin-Kept ctl' p t d i w))

    -- A control block that is not watched may be set up again.
    pub init-Watching :
        (fd : Option ℕ)
        → is_watched (s.filps p) ≡ false
        → Watching ps (tx_aiocb_init (epoll_ops ctl') p fd s)
    unfolding tx_aiocb_init
    init-Watching none u = set_filp-Watching weight p _ s d i (ap bit (sym u)) v
    init-Watching (some fd) u =
        attach-Watching ctl' p _ d i
          (set_filp-Watching weight p (blank (some fd)) s d i (ap bit (sym u)) v) (ground arith)
          (ground arith)

    pub cancel_out-Watching : (verify : Option ℕ) → Watching ps (generic_cancel_out p verify s)
    unfolding generic_cancel_out
    cancel_out-Watching verify =
        if_cases (Watching ps) (same_task verify (s.filps p).tx_filterout)
          (λ _. set_filp-Watching weight p _ s d i refl v) (λ _. v)

    pub cancel_in-Watching : (verify : Option ℕ) → Watching ps (generic_cancel_in p verify s)
    unfolding generic_cancel_in
    cancel_in-Watching verify =
        if_cases (Watching ps) (same_task verify (s.filps p).tx_filterin)
          (λ _. set_filp-Watching weight p _ s d i refl v) (λ _. v)

    pub outcb_update-Watching :
        (failed again : Bool) → Watching ps (tx_outcb_update p failed again s)
    unfolding tx_outcb_update
    outcb_update-Watching failed again =
        if_cases (Watching ps) (failed && again) (λ _. set_filp-Watching weight p _ s d i refl v)
          (λ _. v)

    pub aincb_update-Watching :
        (failed again : Bool) → Watching ps (tx_aincb_update p failed again s)
    unfolding tx_aincb_update
    aincb_update-Watching failed again =
        if_cases (Watching ps) (failed && again) (λ _. set_filp-Watching weight p _ s d i refl v)
          (λ _. v)

  pub listen_init-Watching :
      {ps : List ℕ} (p : ℕ) (s : Net (Epoll K)) (fd : Option ℕ)
      → NoRepeat ps
      → is_in p ps ≡ true
      → is_watched (s.filps p) ≡ false
      → Watching ps s
      → Watching ps (tx_listen_init (epoll_ops ctl') p fd s)
  unfolding tx_listen_init
  listen_init-Watching p s fd d i u v =
      set_filp-Watching weight p _ (tx_aiocb_init (epoll_ops ctl') p fd s) d i refl
        (init-Watching p s d i v fd u)

  pub connect-Kept :
      {ps : List ℕ} (p : ℕ) (s : Net (Epoll K)) (task : Option ℕ) (r : Connected)
      → NoRepeat ps
      → is_in p ps ≡ true
      → Watching ps s
      → Kept ctl' ps (tx_aiocb_connect (epoll_ops ctl') p task r s)
  unfolding tx_aiocb_connect
  connect-Kept p s task in_progress d i v =
      active_out-Kept p _ d i (set_filp-Watching weight p _ s d i refl v) task
  connect-Kept p s task at_once d i v =
      activate-Watching task p _ (set_filp-Watching weight p _ s d i refl v)
  connect-Kept p s task refused d i v =
      activate-Watching task p _ (set_filp-Watching weight p _ s d i refl v)

  -- What the poller needs of a descriptor that is given back: it is attached, and the kernel lets it
  -- go.
  pub record MayLeave (p : ℕ) (s : Net (Epoll K)) : Type 0 where
    pub attached : (flags_at s p).attached ≡ true
    pub not_detached : (flags_at s p).detached ≡ false
    pub accepted : is_done (ctl ctl' del p no_events s) ≡ true

  pub fini-Watching :
      {ps : List ℕ} (p : ℕ) (s : Net (Epoll K))
      → NoRepeat ps
      → is_in p ps ≡ true
      → MayLeave p s
      → Watching ps s
      → Watching ps (tx_aiocb_fini (epoll_ops ctl') p s)
  unfolding tx_aiocb_fini
  fini-Watching {ps} p s d i m v =
      elim (s.filps p).tx_fd as (λ fd. Watching ps (fini_fd (epoll_ops ctl') fd p s)) [
        | none ↦ v
        | some fd ↦ detach-Watching ctl' p s d i v m.attached m.not_detached m.accepted
      ]
