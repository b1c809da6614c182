-- ===== src/Port.antt =====
-- tx_completion_port.cpp: the poller of Windows, which starts an operation for each descriptor that is
-- to be watched and is told when it has ended.
--
-- A `tx_overlapped_t` is a number, its address; `objects` is their memory and `alive` says which of
-- them are allocated. `privp` is the field `tx_privp` of the descriptors. `in_flight` is what the
-- system has accepted and not yet reported: how many operations use `tx_send` and `tx_recv` of an
-- object. What the system answers is an argument. `none` is the end of the program by an assertion, or
-- a use of an object that is not allocated. A `TX_CHECK` only prints, and so does `TX_PANIC (1, ...)`.
pub mod Cache
pub mod Calls
pub mod Ending
pub mod Invariant
pub mod Kept
pub mod Lifetime
pub mod Polling
pub mod Safety
pub mod Starting
pub mod Steps
mod Tests
use libtx.Common.{
  ℕ, ◌+◌, ◌-◌, Bool, true, false, not, ◌&&◌, ◌==◌, ltb, leb, Option, none, some, List, [], ◌∷◌,
  length, if◌then◌else◌, update,
}
use libtx.Common.Int.{ℤ, pos, negsuc, inc, dec}
use libtx.Loop.{TxLoop, tx_poll_active}
use libtx.Aiocb.{Aiocb, Net, set_filp, flags_at, with_flags, activate}
use libtx.Inet.{◌>>=◌}

pub record Overlapped : Type 0 where
  pub tx_refcnt : ℤ
  pub tx_newfd : Option ℕ
  pub tx_filp : Option ℕ
  pub tx_cache : List ℕ

-- `accepting`: an `AcceptEx` is in flight, which has been given `tx_cache` for the addresses.
pub record Flight : Type 0 where
  pub sends : ℕ
  pub recvs : ℕ
  pub accepting : Bool

-- Which `wsa_overlapped_t` of an object an operation uses.
pub data WsaOverlapped : Type 0 where
  tx_send : WsaOverlapped
  tx_recv : WsaOverlapped

pub record Port : Type 0 where
  pub port_task : ℕ
  pub port_list : List ℕ
  pub objects : ℕ → Overlapped
  pub alive : ℕ → Bool
  pub privp : ℕ → Option ℕ
  pub in_flight : ℕ → Flight

abbrev pub cache_size : ℕ
cache_size = 8192

-- `olaped->tx_refcnt < 4`.
abbrev pub below_four : ℤ → Bool
below_four (pos n) = ltb n 4
below_four (negsuc n) = true

abbrev pub is_zero : ℤ → Bool
is_zero (pos n) = n == 0
is_zero (negsuc n) = false

-- `LIST_REMOVE (olaped, entries)`.
unfoldable pub remove_object : ℕ → List ℕ → List ℕ
remove_object p [] = []
remove_object p (x ∷ xs) = let rest = remove_object p xs in if x == p then rest else x ∷ rest

abbrev pub set_object : ℕ → Overlapped → Port → Port
set_object p o port = record port { objects = update port.objects p o }

abbrev pub set_flight : ℕ → Flight → Port → Port
set_flight p f port = record port { in_flight = update port.in_flight p f }

-- `delete olaped`.
unfoldable pub delete_object : ℕ → Port → Port
delete_object p port = record port {
  port_list = remove_object p port.port_list;
  alive = update port.alive p false;
}

-- `if (--olaped->tx_refcnt == 0)`, with the object given as it is before.
unfoldable pub release : ℕ → Overlapped → Port → Port
unfolding delete_object
release p o port =
    let t = set_object p (record o { tx_refcnt = dec o.tx_refcnt }) port in
    if is_zero (dec o.tx_refcnt) then delete_object p t else t

-- `(tx_overlapped_t *) filp->tx_privp`, where it is used.
unfoldable pub object_of : ℕ → Net Port → Option ℕ
object_of f s = s.poll.privp f >>= λ p. if s.poll.alive p then some p else none

-- `(filp->tx_flags & flags) == TX_ATTACHED`.
abbrev pub is_attached : ℕ → Net Port → Bool
is_attached f s = (flags_at s f).attached && not (flags_at s f).detached

-- An operation on `tx_send` has been accepted.
unfoldable pub start_send : ℕ → ℕ → Net Port → Net Port
start_send f p s =
    let o = s.poll.objects p in
    let n = s.poll.in_flight p in
    with_flags f (record (flags_at s f) { writable = false; pollout = true })
      (record s {
        poll =
            set_flight p (record n { sends = n.sends + 1 })
              (set_object p (record o { tx_refcnt = inc o.tx_refcnt }) s.poll);
      })

unfoldable pub start_recv : ℕ → ℕ → Net Port → Net Port
start_recv f p s =
    let o = s.poll.objects p in
    let n = s.poll.in_flight p in
    with_flags f (record (flags_at s f) { pollin = true })
      (record s {
        poll =
            set_flight p (record n { recvs = n.recvs + 1 })
              (set_object p (record o { tx_refcnt = inc o.tx_refcnt }) s.poll);
      })

-- `TX_ASSERT (olaped->tx_refcnt < 4)`.
abbrev pub assert_refcnt : ℕ → Net Port → Option (Net Port)
assert_refcnt p s = if below_four (s.poll.objects p).tx_refcnt then some s else none

abbrev pub wake_out : ℕ → Net Port → Net Port
wake_out f s =
    let a = activate (s.filps f).tx_filterout f s in
    set_filp f
      (record (s.filps f) {
        tx_flags = record (flags_at s f) { pollout = false; writable = true };
        tx_filterout = none;
      })
      a

abbrev pub wake_in : ℕ → Net Port → Net Port
wake_in f s =
    let a = activate (s.filps f).tx_filterin f s in
    set_filp f
      (record (s.filps f) {
        tx_flags = record (flags_at s f) { pollin = false; readable = true };
        tx_filterin = none;
      })
      a

-- What an ended operation does for its descriptor.
abbrev pub wake_slot : WsaOverlapped → Option ℕ → Net Port → Net Port
wake_slot slot none s = s
wake_slot tx_send (some f) s = wake_out f s
wake_slot tx_recv (some f) s = wake_in f s

unfoldable pub finish_object : WsaOverlapped → ℕ → Net Port → Net Port
unfolding release
finish_object slot p s =
    let o = s.poll.objects p in
    let t = record s { poll = release p o s.poll } in
    if is_zero (dec o.tx_refcnt) then t else wake_slot slot o.tx_filp t

unfoldable pub handle_overlapped : WsaOverlapped → ℕ → Net Port → Option (Net Port)
unfolding finish_object
handle_overlapped slot p s = if s.poll.alive p then some (finish_object slot p s) else none

-- The system reports an operation, which is then in flight no more.
abbrev pub landed : WsaOverlapped → Flight → Flight
landed tx_send n = record n { sends = n.sends - 1 }
landed tx_recv n = record n { recvs = n.recvs - 1; accepting = false }

abbrev pub reported : WsaOverlapped → ℕ → Net Port → Net Port
reported slot p s = record s { poll = set_flight p (landed slot (s.poll.in_flight p)) s.poll }

-- The `for` of `tx_completion_port_polling`, with the operations that the system reports until it has
-- no more; how long it may wait for the next, 15 ms or none by `tx_loop_timeout`, is left out.
unfoldable pub handle_each : List (WsaOverlapped × ℕ) → Net Port → Option (Net Port)
handle_each [] s = some s
handle_each ((slot, p) ∷ es) s =
    handle_overlapped slot p (reported slot p s) >>= λ t. handle_each es t

unfoldable pub tx_completion_port_polling : List (WsaOverlapped × ℕ) → Net Port → Option (Net Port)
tx_completion_port_polling es s =
    handle_each es s >>= λ t. some (record t { loop = tx_poll_active t.poll.port_task t.loop })
