-- ===== src/Port/Calls.antt =====
-- The operations that tx_completion_port.cpp puts into its table, `_completion_port_ops`.
use libtx.Common.{
  ℕ, Bool, true, false, not, ◌&&◌, ltb, leb, Option, none, some, List, [], ◌∷◌, length,
  if◌then◌else◌, update,
}
use libtx.Common.Int.{ℤ, pos, negsuc}
use libtx.Aiocb.{Net, flags_at, with_flags}
use libtx.Inet.{◌>>=◌}
use libtx.Port.{
  Port, cache_size, set_object, set_flight, release, object_of, is_attached, start_send, start_recv,
  assert_refcnt, wake_out, wake_in,
}

-- The data that `WSASend` is to send, in the buffer of the object unless the caller's stays
-- (TX_MEMLOCK); `none` if it does not fit.
abbrev pub stage : Bool → ℕ → List ℕ → Net Port → Option (Net Port)
stage memlock p buf s =
    if memlock
    then some s
    else if leb (length buf) cache_size
    then some
        (record s { poll = set_object p (record (s.poll.objects p) { tx_cache = buf }) s.poll })
    else none

-- `WSASend` for the staged data, and the return value.
unfoldable pub send_staged : Bool → ℕ → ℕ → ℕ → Net Port → Option (ℤ × Net Port)
unfolding start_send
send_staged true f p len s = assert_refcnt p (start_send f p s) >>= λ t. some (pos len, t)
send_staged false f p len s = some (negsuc 0, wake_out f s)

abbrev pub send_if : Bool → ℕ → ℕ → ℕ → Net Port → Option (Net Port) → Option (ℤ × Net Port)
send_if accepted f p len s none = some (negsuc 0, s)
send_if accepted f p len s (some t) = send_staged accepted f p len t

-- `sent`: what `send` returns, 0 for an error too. `accepted`: `WSASend` succeeds or is pending.
unfoldable pub tx_completion_port_sendout :
    (memlock : Bool) (sent : ℕ) (accepted : Bool) → ℕ → List ℕ → Net Port → Option (ℤ × Net Port)
unfolding object_of send_staged
tx_completion_port_sendout memlock sent accepted f buf s =
    if (flags_at s f).pollout
    then some (negsuc 0, s)
    else if is_attached f s && ltb 0 (length buf)
    then (if ltb 0 sent
        then some (pos sent, s)
        else (object_of f s >>= λ p. send_if accepted f p (length buf) s (stage memlock p buf s)))
    else none

-- What `ConnectEx` answers.
pub data ConnectResult : Type 0 where
  connected : ConnectResult
  pending : ConnectResult
  failed : ConnectResult

-- -WSAEINPROGRESS.
abbrev pub in_progress : ℤ
in_progress = negsuc 10035

unfoldable pub tx_completion_port_connect : ConnectResult → ℕ → Net Port → Option (ℤ × Net Port)
unfolding object_of start_send
tx_completion_port_connect r f s =
    if (flags_at s f).pollout
    then some (negsuc 0, s)
    else if is_attached f s
    then (object_of f s >>= λ p. elim r [
      | connected ↦ assert_refcnt p (start_send f p s) >>= λ t. some (pos 0, t)
      | pending ↦ assert_refcnt p (start_send f p s) >>= λ t. some (in_progress, t)
      | failed ↦ some (negsuc 0, s)
    ])
    else none

-- The new descriptor, or `none` for -1.
unfoldable pub tx_completion_port_accept : ℕ → Net Port → Option (Option ℕ × Net Port)
unfolding object_of
tx_completion_port_accept f s =
    if (flags_at s f).tx_listen && (flags_at s f).readable
    then (object_of f s >>= λ p.
        let o = s.poll.objects p in
        some (
          o.tx_newfd,
          with_flags f (record (flags_at s f) { readable = false })
              (record s { poll = set_object p (record o { tx_newfd = none }) s.poll }),
        ))
    else some (none, s)

-- There is no operation that waits for room to write.
unfoldable pub tx_completion_port_pollout : ℕ → Net Port → Option (Net Port)
tx_completion_port_pollout f s =
    if (flags_at s f).pollout then some s else if is_attached f s then some s else none

-- `alloc`: the new object. `handled`: `CreateIoCompletionPort` succeeds.
unfoldable pub attach_object : ℕ → ℕ → Net Port → Net Port
attach_object f p s =
    with_flags f (record (flags_at s f) { attached = true })
      (record s {
        poll = record s.poll {
          port_list = p ∷ s.poll.port_list;
          objects =
              update s.poll.objects p
                (record { tx_refcnt = pos 1; tx_newfd = none; tx_filp = some f; tx_cache = [] });
          alive = update s.poll.alive p true;
          privp = update s.poll.privp f (some p);
        };
      })

unfoldable pub tx_completion_port_attach :
    (handled : Bool) (alloc : Option ℕ) → ℕ → Net Port → Option (Net Port)
unfolding attach_object
tx_completion_port_attach handled alloc f s =
    if not (flags_at s f).attached && not (flags_at s f).detached
    then (if handled then (alloc >>= λ p. some (attach_object f p s)) else none)
    else some s

-- What an `AcceptEx` is given, besides the socket: the new descriptor, and `tx_cache` to write to.
abbrev pub accept_ex : ℕ → ℕ → Net Port → Net Port
accept_ex p newfd s = record s {
  poll =
      set_flight p (record (s.poll.in_flight p) { accepting = true })
        (set_object p (record (s.poll.objects p) { tx_newfd = some newfd }) s.poll);
}

-- `AcceptEx` for a listener, and else a receive.
abbrev pub keep_newfd : Bool → ℕ → ℕ → Net Port → Net Port
keep_newfd listens p newfd s = if listens then accept_ex p newfd s else s

-- `accepted`: `WSARecv` or `AcceptEx` succeeds or is pending; `newfd`: the descriptor for `AcceptEx`.
unfoldable pub tx_completion_port_pollin :
    (accepted : Bool) (newfd : ℕ) → ℕ → Net Port → Option (Net Port)
unfolding object_of start_recv
tx_completion_port_pollin accepted newfd f s =
    let listens = (flags_at s f).tx_listen in
    if (flags_at s f).pollin
    then some s
    else if is_attached f s
    then (object_of f s >>= λ p.
        if accepted
        then assert_refcnt p (start_recv f p (keep_newfd listens p newfd s))
        else assert_refcnt p (if listens then s else wake_in f s))
    else none

unfoldable pub detach_object : ℕ → ℕ → Net Port → Net Port
unfolding release
detach_object f p s =
    with_flags f (record (flags_at s f) { detached = true })
      (record s {
        poll =
            release p (record (s.poll.objects p) { tx_filp = none })
              (record s.poll { privp = update s.poll.privp f none });
      })

unfoldable pub tx_completion_port_detach : ℕ → Net Port → Option (Net Port)
unfolding object_of detach_object
tx_completion_port_detach f s =
    if is_attached f s then (object_of f s >>= λ p. some (detach_object f p s)) else some s
