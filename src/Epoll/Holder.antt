-- ===== src/Epoll/Holder.antt =====
-- The count of a poller and its hold on the loop (tx_epoll.cpp; tx_kqueue.cpp has the same), for what
-- each descriptor weighs in the count.
use libtx.Common.{
  ℕ, ◌≤◌, ◌≡◌, refl, Bool, true, false, Option, none, some, List, arith, ap, sym, ◌∙◌,
}
use libtx.Common.Int.{ℤ, pos, is_positive}
use libtx.Loop.{TxLoop, tx_task_active, tx_poll_active, tx_task_drop, drop_task, unlink, enqueue}
use libtx.Aiocb.{Aiocb, Net, set_filp}
use libtx.Aiocb.Weights.{is_in, NoRepeat, total, total-update}
use libtx.Epoll.{Epoll, is_self, take_holder, leave_holder}

-- `loop->tx_holder` is not NULL.
abbrev pub is_held : Option ℕ → Bool
is_held none = false
is_held (some h) = true

pub active-holder :
    (t : Option ℕ) (reason : ℕ) (l : TxLoop) → (tx_task_active t reason l).tx_holder ≡ l.tx_holder
unfolding tx_task_active tx_task_drop drop_task unlink enqueue
active-holder none reason l = refl
active-holder (some p) reason l = ground arith

pub poll_active-holder : (p : ℕ) (l : TxLoop) → (tx_poll_active p l).tx_holder ≡ l.tx_holder
unfolding tx_poll_active
poll_active-holder p l = ground arith

-- A count that has not grown and is positive was positive.
pub grown :
    {a b : ℤ} {m n : ℕ}
    → a ≡ pos n
    → b ≡ pos m
    → m ≤ n
    → is_positive b ≡ true
    → is_positive a ≡ true
unfolding is_positive
grown p q h e = ground arith

module _ (weight : Aiocb → ℕ) {K : Type 0} where
  -- The count is exact, and the loop has a holder as long as anything is counted.
  pub record Counted (ps : List ℕ) (s : Net (Epoll K)) : Type 0 where
    pub counted : s.poll.epoll_refcnt ≡ pos (total weight ps s.filps)
    pub taken : is_positive s.poll.epoll_refcnt ≡ true → is_held s.loop.tx_holder ≡ true

  -- Between calls the poller holds the loop only while it watches something.
  pub record Watching (ps : List ℕ) (s : Net (Epoll K)) : Type 0 where
    pub exact : Counted ps s
    pub held : is_self s.loop.tx_holder s.poll.self ≡ true → is_positive s.poll.epoll_refcnt ≡ true

  pub take_holder-Watching :
      {ps : List ℕ} (s : Net (Epoll K))
      → s.poll.epoll_refcnt ≡ pos (total weight ps s.filps)
      → (is_self s.loop.tx_holder s.poll.self ≡ true → is_positive s.poll.epoll_refcnt ≡ true)
      → Watching ps (take_holder s)
  unfolding take_holder is_positive
  take_holder-Watching s c h = record {
    exact = record { counted = ground arith; taken = ground arith };
    held = ground arith;
  }

  pub leave_holder-Watching :
      {ps : List ℕ} (s : Net (Epoll K)) → Counted ps s → Watching ps (leave_holder s)
  unfolding leave_holder is_positive
  leave_holder-Watching s v = record {
    exact = record { counted = ground arith; taken = ground arith };
    held = ground arith;
  }

  -- Whatever the loop does, apart from its holder.
  pub loop-Watching :
      {ps : List ℕ} (s : Net (Epoll K)) (l : TxLoop)
      → l.tx_holder ≡ s.loop.tx_holder
      → Watching ps s
      → Watching ps (record s { loop = l })
  loop-Watching s l e v = record {
    exact = record { counted = v.exact.counted; taken = λ h. ap is_held e ∙ v.exact.taken h };
    held = λ h. v.held (ap (λ o. is_self o s.poll.self) (sym e) ∙ h);
  }

  pub kernel-Watching :
      {ps : List ℕ} (s : Net (Epoll K)) (k : K)
      → Watching ps s
      → Watching ps (record s { poll = record s.poll { kernel = k } })
  kernel-Watching s k v = record {
    exact = record { counted = v.exact.counted; taken = v.exact.taken };
    held = v.held;
  }

  -- A descriptor changes in what does not concern the poller.
  pub set_filp-Watching :
      {ps : List ℕ} (p : ℕ) (f : Aiocb) (s : Net (Epoll K))
      → NoRepeat ps
      → is_in p ps ≡ true
      → weight f ≡ weight (s.filps p)
      → Watching ps s
      → Watching ps (set_filp p f s)
  set_filp-Watching {ps} p f s d i e v = record {
    exact = record {
      counted = v.exact.counted ∙ ap pos (omega (arith, e, total-update weight ps s.filps p f d i));
      taken = v.exact.taken;
    };
    held = v.held;
  }
