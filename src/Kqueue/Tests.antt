-- ===== src/Kqueue/Tests.antt =====
-- The theorems on the poller at a concrete state: the poller 100 with its task 101, and the attached
-- descriptor 1, whose task 7 waits to read.
use libtx.Common.{
  ℕ, suc, ◌+◌, ◌≡◌, refl, Bool, true, false, ◌&&◌, Option, none, some, List, [], ◌∷◌,
}
use libtx.Common.Int.{pos, is_positive}
use libtx.Loop.{TxLoop, tx_loop_new}
use libtx.Aiocb.{Aiocb, Net, flags_at}
use libtx.Aiocb.Weights.{total}
use libtx.Epoll.Count.{bit}
use libtx.Epoll.Holder.{Watching}
use libtx.Kqueue.{Kqueue, Change, read_filter, Kevent, tx_kqueue_detach, tx_kqueue_polling}
use libtx.Kqueue.Balance.{filters, detach-counted}
use libtx.Kqueue.Polling.{polling-Watching}

abbrev kernel_change : Option ℕ → List Change → ℕ → Bool × ℕ
kernel_change fd cs k = (true, suc k)

abbrev kernel_wait : ℕ → ℕ → List Kevent × ℕ
kernel_wait ms k = (record { filp = 1; filter = read_filter } ∷ [], suc k)

abbrev base_loop : TxLoop
base_loop = tx_loop_new λ p. record {
  tx_flags = record { idle = true; busy = false; pending = false; user_mark = false };
  tx_reason = 0;
  tx_data = 0;
  tx_call = p;
}

-- Descriptor 1, attached, with what is polled.
abbrev attached_with : (pollin pollout : Bool) → Aiocb
attached_with pollin pollout = record {
  tx_fd = some 30;
  tx_flags = record {
    tx_listen = false;
    pollin = pollin;
    pollout = pollout;
    readable = false;
    writable = false;
    attached = true;
    detached = false;
  };
  tx_filterin = some 7;
  tx_filterout = none;
}

abbrev net_with : ℕ → Bool → Bool → Net (Kqueue ℕ)
net_with n pollin pollout = record {
  poll = record { self = 100; epoll_task = 101; epoll_refcnt = pos n; kernel = 0 };
  filps = λ p. attached_with pollin pollout;
  loop = record base_loop { tx_holder = some 100 };
}

reading-Watching : Watching filters (1 ∷ []) (net_with 1 true false)
unfolding is_positive
reading-Watching = record { exact = record { counted = refl; taken = λ h. refl }; held = λ h. refl }

polling-Watching_example :
    Watching filters (1 ∷ []) (tx_kqueue_polling kernel_wait (net_with 1 true false))
polling-Watching_example =
    polling-Watching kernel_wait (1 ∷ []) (net_with 1 true false) (refl, tt) (refl, refl, refl, tt)
      reading-Watching

detach-counted_example :
    (tx_kqueue_detach kernel_change 1 (net_with 2 true true)).poll.epoll_refcnt
    ≡ pos (
        total filters (1 ∷ []) (tx_kqueue_detach kernel_change 1 (net_with 2 true true)).filps
        + bit (
            (flags_at (net_with 2 true true) 1).pollin
            && (flags_at (net_with 2 true true) 1).pollout))
detach-counted_example =
    detach-counted kernel_change (1 ∷ []) 1 (net_with 2 true true) (refl, tt) refl refl refl refl
      refl
