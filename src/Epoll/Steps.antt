-- ===== src/Epoll/Steps.antt =====
-- What programs do with descriptors (tx_aiocb.cpp) under the poller of tx_epoll.cpp, as steps.
use libtx.Common.{ℕ, ◌≡◌, Bool, true, false, Option, some, List, subst}
use libtx.Loop.{TxLoop}
use libtx.Aiocb.{
  Net, Connected, generic_active_in, generic_active_out, generic_cancel_in, generic_cancel_out,
  tx_aincb_update, tx_outcb_update, tx_aiocb_init, tx_listen_init, tx_aiocb_connect, tx_aiocb_fini,
}
use libtx.Epoll.{
  CtlOp, CtlResult, done, mod_events, Interest, Event, Epoll, epoll_ops, tx_epoll_polling, waited,
}
use libtx.Epoll.Operations.{Kept}
use libtx.Epoll.Polling.{Ready, polling-Watching}
use libtx.Epoll.Descriptors.{
  active_out-Kept, active_in-Kept, init-Watching, listen_init-Watching, connect-Kept, MayLeave,
  fini-Watching, cancel_out-Watching, cancel_in-Watching, outcb_update-Watching,
  aincb_update-Watching,
}
use libtx.Aiocb.Weights.{is_in, NoRepeat}
use libtx.Epoll.Count.{is_watched, weight, Watching}
use libtx.Epoll.Holder.{loop-Watching}

module _ {K : Type 0} (ctl' : CtlOp → Option ℕ → Interest → K → CtlResult × K) where
  module _ (epoll_wait : ℕ → K → List Event × K) where
    -- A call, on descriptors of `ps`, or a poll.
    pub data Step (ps : List ℕ) : Net (Epoll K) → Net (Epoll K) → Type 0 where
      init :
          {s : Net (Epoll K)} (p : ℕ) (fd : Option ℕ)
          → is_in p ps ≡ true
          → is_watched (s.filps p) ≡ false
          → Step ps s (tx_aiocb_init (epoll_ops ctl') p fd s)
      listen_init :
          {s : Net (Epoll K)} (p : ℕ) (fd : Option ℕ)
          → is_in p ps ≡ true
          → is_watched (s.filps p) ≡ false
          → Step ps s (tx_listen_init (epoll_ops ctl') p fd s)
      active_in :
          {s t : Net (Epoll K)} (p : ℕ) (task : Option ℕ)
          → is_in p ps ≡ true
          → generic_active_in (epoll_ops ctl') p task s ≡ some t
          → Step ps s t
      active_out :
          {s t : Net (Epoll K)} (p : ℕ) (task : Option ℕ)
          → is_in p ps ≡ true
          → generic_active_out (epoll_ops ctl') p task s ≡ some t
          → Step ps s t
      connect :
          {s t : Net (Epoll K)} (p : ℕ) (task : Option ℕ) (r : Connected)
          → is_in p ps ≡ true
          → tx_aiocb_connect (epoll_ops ctl') p task r s ≡ some t
          → Step ps s t
      cancel_in :
          {s : Net (Epoll K)} (p : ℕ) (verify : Option ℕ)
          → is_in p ps ≡ true
          → Step ps s (generic_cancel_in p verify s)
      cancel_out :
          {s : Net (Epoll K)} (p : ℕ) (verify : Option ℕ)
          → is_in p ps ≡ true
          → Step ps s (generic_cancel_out p verify s)
      update_in :
          {s : Net (Epoll K)} (p : ℕ) (failed again : Bool)
          → is_in p ps ≡ true
          → Step ps s (tx_aincb_update p failed again s)
      update_out :
          {s : Net (Epoll K)} (p : ℕ) (failed again : Bool)
          → is_in p ps ≡ true
          → Step ps s (tx_outcb_update p failed again s)
      fini :
          {s : Net (Epoll K)} (p : ℕ)
          → is_in p ps ≡ true
          → MayLeave ctl' p s
          → Step ps s (tx_aiocb_fini (epoll_ops ctl') p s)
      poll :
          {s : Net (Epoll K)}
          → Ready ps (waited ctl' epoll_wait s).0 s.filps
          → Step ps s (tx_epoll_polling ctl' epoll_wait s)
      elsewhere :
          {s : Net (Epoll K)} (l : TxLoop)
          → l.tx_holder ≡ s.loop.tx_holder
          → Step ps s (record s { loop = l })

    pub data Steps (ps : List ℕ) (s : Net (Epoll K)) : Net (Epoll K) → Type 0 where
      no_step : Steps ps s s
      then_step : {t u : Net (Epoll K)} → Steps ps s t → Step ps t u → Steps ps s u

    module _
        (rearms : (fd : Option ℕ) (i : Interest) (k : K) → (ctl' mod_events fd i k).0 ≡ done) where
      Step-Watching :
          {ps : List ℕ} {s t : Net (Epoll K)}
          → NoRepeat ps
          → Step ps s t
          → Watching ps s
          → Watching ps t
      Step-Watching d (init {s = s} p fd i u) v = init-Watching ctl' p s d i v fd u
      Step-Watching d (listen_init {s = s} p fd i u) v = listen_init-Watching ctl' p s fd d i u v
      Step-Watching {ps} d (active_in {s = s} p task i e) v =
          subst (Kept ctl' ps) e (active_in-Kept ctl' p s d i v task)
      Step-Watching {ps} d (active_out {s = s} p task i e) v =
          subst (Kept ctl' ps) e (active_out-Kept ctl' p s d i v task)
      Step-Watching {ps} d (connect {s = s} p task r i e) v =
          subst (Kept ctl' ps) e (connect-Kept ctl' p s task r d i v)
      Step-Watching d (cancel_in {s = s} p verify i) v = cancel_in-Watching ctl' p s d i v verify
      Step-Watching d (cancel_out {s = s} p verify i) v = cancel_out-Watching ctl' p s d i v verify
      Step-Watching d (update_in {s = s} p failed again i) v =
          aincb_update-Watching ctl' p s d i v failed again
      Step-Watching d (update_out {s = s} p failed again i) v =
          outcb_update-Watching ctl' p s d i v failed again
      Step-Watching d (fini {s = s} p i m) v = fini-Watching ctl' p s d i m v
      Step-Watching {ps} d (poll {s = s} r) v = polling-Watching ctl' rearms epoll_wait ps s d r v
      Step-Watching d (elsewhere {s = s} l e) v = loop-Watching weight s l e v

      -- Every sequence of calls on descriptors of a list without repetition, of polls, and of changes
      -- of the loop that leave `tx_holder` keeps these: `epoll_refcnt` is the number of descriptors of
      -- the list that are watched, the loop has a holder if there are any, and the poller holds the
      -- loop only then. The kernel must grant each EPOLL_CTL_MOD. No descriptor is initialised while it
      -- is watched; only one that is attached and that the kernel deletes is finished; and each poll
      -- reports descriptors of the list that are watched, each at most once.
      pub Steps-Watching :
          {ps : List ℕ} {s t : Net (Epoll K)}
          → NoRepeat ps
          → Steps ps s t
          → Watching ps s
          → Watching ps t
      Steps-Watching d no_step v = v
      Steps-Watching d (then_step r st) v = Step-Watching d st (Steps-Watching d r v)
