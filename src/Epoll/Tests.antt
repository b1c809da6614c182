-- ===== src/Epoll/Tests.antt =====
-- The theorems on the poller at a concrete state: the poller 100 with its task 101, and the
-- descriptors 1 and 2, of which the first is attached.
use libtx.Common.{ℕ, suc, ◌≡◌, refl, true, false, Option, none, some, List, [], ◌∷◌}
use libtx.Common.Int.{pos, inc, dec, is_positive}
use libtx.Loop.{flags_of, tx_loop_new}
use libtx.Aiocb.{Net, blank, flags_at, set_filp, generic_active_in, tx_aiocb_init, tx_outcb_update}
use libtx.Epoll.{
  CtlOp, CtlResult, done, Interest, Event, Epoll, epoll_ops, arm_in, take_holder, tx_epoll_pollin,
  handle_event, tx_epoll_attach, tx_epoll_polling,
}
use libtx.Epoll.Steps.{Steps, no_step, then_step, init, active_in, poll, Steps-Watching}
use libtx.Epoll.Wakeups.{active_in-woken}
use libtx.Epoll.HangUp.{hang_up-unwatched}
use libtx.Epoll.Count.{count, Watching}

-- A kernel that counts its calls and accepts them all.
abbrev kernel_ctl : CtlOp → Option ℕ → Interest → ℕ → CtlResult × ℕ
kernel_ctl op fd i k = (done, suc k)

-- Each wait reports that descriptor 1 can be read.
abbrev readable_1 : Event
readable_1 = record { filp = 1; ready_in = true; ready_out = false; hup = false }

abbrev kernel_wait : ℕ → ℕ → List Event × ℕ
kernel_wait ms k = (readable_1 ∷ [], suc k)

abbrev start : Net (Epoll ℕ)
start = record {
  poll = record { self = 100; epoll_task = 101; epoll_refcnt = pos 0; kernel = 0 };
  filps = λ p. blank none;
  loop = tx_loop_new λ p. record {
    tx_flags = record { idle = true; busy = false; pending = false; user_mark = false };
    tx_reason = 0;
    tx_data = 0;
    tx_call = p;
  };
}

start-Watching : Watching (1 ∷ 2 ∷ []) start
unfolding tx_loop_new is_positive
start-Watching = record { exact = record { counted = refl; taken = λ h. cc }; held = λ h. cc }

abbrev opened : Net (Epoll ℕ)
opened = tx_aiocb_init (epoll_ops kernel_ctl) 1 (some 30) start

active_in-woken_example :
    (u : Net (Epoll ℕ)) × (generic_active_in (epoll_ops kernel_ctl) 1 (some 7) opened ≡ some u)
    × ((flags_at u 1).pollin ≡ true)
    × ((flags_of (handle_event kernel_ctl readable_1 u).loop 7).busy ≡ true)
    × (((handle_event kernel_ctl readable_1 u).filps 1).tx_filterin ≡ none)
unfolding tx_aiocb_init tx_epoll_attach tx_loop_new
active_in-woken_example =
    active_in-woken kernel_ctl 1 7 opened readable_1 (λ fd i k. refl) refl refl refl refl refl refl

-- Descriptor 1 with its output not ready.
abbrev full : Net (Epoll ℕ)
full = tx_outcb_update 1 true true opened

abbrev writable_1 : Event
writable_1 = record { filp = 1; ready_in = false; ready_out = true; hup = false }

abbrev waiting : Net (Epoll ℕ)
waiting =
    take_holder
      (arm_in kernel_ctl 1 (set_filp 1 (record (opened.filps 1) { tx_filterin = some 7 }) opened))

steps :
    Steps kernel_ctl kernel_wait
      (1 ∷ 2 ∷ [])
      start
      (tx_epoll_polling kernel_ctl kernel_wait waiting)
unfolding tx_aiocb_init tx_epoll_attach generic_active_in tx_epoll_pollin arm_in take_holder inc
    is_positive tx_loop_new
steps =
    then_step
      (then_step (then_step no_step (init 1 (some 30) refl refl)) (active_in 1 (some 7) refl refl))
      (poll (refl, refl, refl, tt))

Steps-Watching_example : Watching (1 ∷ 2 ∷ []) (tx_epoll_polling kernel_ctl kernel_wait waiting)
Steps-Watching_example =
    Steps-Watching kernel_ctl kernel_wait (λ fd i k. refl) (refl, (refl, tt)) steps start-Watching

abbrev hung_up_1 : Event
hung_up_1 = record { filp = 1; ready_in = false; ready_out = false; hup = true }

hang_up-unwatched_example :
    (handle_event kernel_ctl hung_up_1 opened).poll.epoll_refcnt
    ≡ dec (pos (count (1 ∷ 2 ∷ []) (handle_event kernel_ctl hung_up_1 opened).filps))
unfolding tx_aiocb_init tx_epoll_attach
hang_up-unwatched_example =
    hang_up-unwatched kernel_ctl (1 ∷ 2 ∷ []) hung_up_1 opened (refl, (refl, tt)) refl refl refl
      (record { counted = refl; taken = λ h. start-Watching.exact.taken h })
