-- ===== src/Aiocb.antt =====
-- tx_aiocb.cpp and include/tx_aiocb.h: descriptors that tasks wait on, whichever poller watches them.
--
-- A descriptor's control block is a number, its address. `Net P` is their memory, together with the
-- loop and the state `P` of the poller. `PollOps` is the `tx_poll_op` table of a poller; an operation
-- that may fail a `TX_ASSERT`, which ends the program, returns an Option. The fields of the table that
-- tx_epoll.cpp leaves NULL (`tx_sendout`, `tx_connect`, `tx_accept`) are for Windows.
pub mod Weights
use libtx.Common.{
  ℕ, Bool, true, false, ◌&&◌, ◌==◌, ltb, Option, none, some, List, take, if◌then◌else◌, update,
}
use libtx.Common.Int.{ℤ, pos, negsuc}
use libtx.Loop.{TxLoop, tx_task_active}

pub record AioFlags : Type 0 where
  pub tx_listen : Bool
  pub pollin : Bool
  pub pollout : Bool
  pub readable : Bool
  pub writable : Bool
  pub attached : Bool
  pub detached : Bool

-- `tx_fd` is `none` for -1. `tx_poll` is the one poller, and `tx_fops` always the generic table.
pub record Aiocb : Type 0 where
  pub tx_fd : Option ℕ
  pub tx_flags : AioFlags
  pub tx_filterin : Option ℕ
  pub tx_filterout : Option ℕ

pub record Net (P : Type 0) : Type 0 where
  pub poll : P
  pub filps : ℕ → Aiocb
  pub loop : TxLoop

pub record PollOps (P : Type 0) : Type 0 where
  pub tx_pollout : ℕ → Net P → Option (Net P)
  pub tx_pollin : ℕ → Net P → Option (Net P)
  pub tx_attach : ℕ → Net P → Net P
  pub tx_detach : ℕ → Net P → Net P

-- What `connect` returns: 0, or -1 with EINPROGRESS, or -1 with another `errno`.
pub data Connected : Type 0 where
  at_once : Connected
  in_progress : Connected
  refused : Connected

-- `verify == filp->tx_filterout`.
abbrev pub same_task : Option ℕ → Option ℕ → Bool
same_task none none = true
same_task (some a) (some b) = a == b
same_task _ _ = false

abbrev pub blank : Option ℕ → Aiocb
blank fd = record {
  tx_fd = fd;
  tx_flags = record {
    tx_listen = false;
    pollin = false;
    pollout = false;
    readable = false;
    writable = true;
    attached = false;
    detached = false;
  };
  tx_filterin = none;
  tx_filterout = none;
}

abbrev pub is_negative : ℤ → Bool
is_negative (pos n) = false
is_negative (negsuc n) = true

module _ {P : Type 0} where
  abbrev pub set_filp : ℕ → Aiocb → Net P → Net P
  set_filp p f s = record s { filps = update s.filps p f }

  abbrev pub flags_at : Net P → ℕ → AioFlags
  flags_at s p = (s.filps p).tx_flags

  abbrev pub with_flags : ℕ → AioFlags → Net P → Net P
  with_flags p a s = set_filp p (record (s.filps p) { tx_flags = a }) s

  abbrev pub activate : Option ℕ → ℕ → Net P → Net P
  activate task p s = record s { loop = tx_task_active task p s.loop }

  -- `failed`: the number of bytes is negative. `again`: the error is EAGAIN.
  unfoldable pub tx_outcb_update : ℕ → (failed again : Bool) → Net P → Net P
  tx_outcb_update p failed again s =
      if failed && again then with_flags p (record (flags_at s p) { writable = false }) s else s

  unfoldable pub tx_aincb_update : ℕ → (failed again : Bool) → Net P → Net P
  tx_aincb_update p failed again s =
      if failed && again then with_flags p (record (flags_at s p) { readable = false }) s else s

  -- `sendout` is `ops->tx_sendout`, which may be NULL; `n` and `again` are what `write` answers.
  unfoldable pub tx_outcb_write :
      Option (ℕ → List ℕ → Net P → Option (ℤ × Net P))
      → (n : ℤ) (again : Bool) → ℕ
      → List ℕ
      → Net P
      → Option (ℤ × Net P)
  unfolding tx_outcb_update
  tx_outcb_write none n again p buf s = some (n, tx_outcb_update p (is_negative n) again s)
  tx_outcb_write (some sendout) n again p buf s = sendout p (take 8192 buf) s

  -- `iov_max` is IOV_MAX; `n` and `again` are what `writev` answers. The code that is compiled on Unix.
  unfoldable pub tx_outcb_xsend :
      (iov_max : ℕ) (n : ℤ) (again : Bool) → ℕ → (count : ℕ) → Net P → Option (ℤ × Net P)
  unfolding tx_outcb_update
  tx_outcb_xsend iov_max n again p count s =
      if ltb count iov_max then some (n, tx_outcb_update p (is_negative n) again s) else none

  -- `newfd` and `again` are what `accept` answers. The code that is compiled on Unix.
  unfoldable pub tx_listen_accept : (newfd : ℤ) (again : Bool) → ℕ → Net P → ℤ × Net P
  unfolding tx_aincb_update
  tx_listen_accept newfd again p s = (newfd, tx_aincb_update p (is_negative newfd) again s)

  unfoldable pub generic_cancel_out : ℕ → Option ℕ → Net P → Net P
  generic_cancel_out p verify s =
      if same_task verify (s.filps p).tx_filterout
      then set_filp p (record (s.filps p) { tx_filterout = none }) s
      else s

  unfoldable pub generic_cancel_in : ℕ → Option ℕ → Net P → Net P
  generic_cancel_in p verify s =
      if same_task verify (s.filps p).tx_filterin
      then set_filp p (record (s.filps p) { tx_filterin = none }) s
      else s

  module _ (ops : PollOps P) where
    unfoldable pub generic_active_out : ℕ → Option ℕ → Net P → Option (Net P)
    generic_active_out p task s =
        if (flags_at s p).writable
        then some (activate task p s)
        else let t = set_filp p (record (s.filps p) { tx_filterout = task }) s in
          if (flags_at s p).pollout then some t else ops.tx_pollout p t

    unfoldable pub generic_active_in : ℕ → Option ℕ → Net P → Option (Net P)
    generic_active_in p task s =
        if (flags_at s p).readable
        then some (activate task p s)
        else let t = set_filp p (record (s.filps p) { tx_filterin = task }) s in
          if (flags_at s p).pollin then some t else ops.tx_pollin p t

    unfoldable pub tx_aiocb_init : ℕ → Option ℕ → Net P → Net P
    tx_aiocb_init p none s = set_filp p (blank none) s
    tx_aiocb_init p (some fd) s = ops.tx_attach p (set_filp p (blank (some fd)) s)

    unfoldable pub tx_listen_init : ℕ → Option ℕ → Net P → Net P
    unfolding tx_aiocb_init
    tx_listen_init p fd s =
        let t = tx_aiocb_init p fd s in with_flags p (record (flags_at t p) { tx_listen = true }) t

    unfoldable pub tx_aiocb_connect : ℕ → Option ℕ → Connected → Net P → Option (Net P)
    unfolding generic_active_out
    tx_aiocb_connect p task in_progress s =
        generic_active_out p task
          (with_flags p (record (flags_at s p) { writable = false; readable = false }) s)
    tx_aiocb_connect p task at_once s =
        some (activate task p (with_flags p (record (flags_at s p) { writable = true }) s))
    tx_aiocb_connect p task refused s = some (
        activate task p
          (with_flags p (record (flags_at s p) { writable = true; readable = true }) s))

    unfoldable pub fini_fd : Option ℕ → ℕ → Net P → Net P
    fini_fd none p s = s
    fini_fd (some fd) p s = ops.tx_detach p s

    unfoldable pub tx_aiocb_fini : ℕ → Net P → Net P
    unfolding fini_fd
    tx_aiocb_fini p s = fini_fd (s.filps p).tx_fd p s
