-- ===== src/Port/Polling.antt =====
-- `tx_completion_port_polling` (tx_completion_port.cpp), with what the system reports.
use libtx.Common.{
  ℕ, ◌≡◌, refl, Bool, true, false, not, ◌&&◌, Option, none, some, List, [], ◌∷◌, arith, update,
  Option-cases, inl, inr, subst,
}
use libtx.Common.Int.{dec}
use libtx.Loop.{flags_of}
use libtx.Aiocb.{Aiocb, Net}
use libtx.Epoll.Wakeups.{active-busy}
use libtx.Port.{
  Flight, Port, WsaOverlapped, tx_send, tx_recv, finish_object, release, delete_object,
  handle_overlapped, landed, reported, handle_each, tx_completion_port_polling,
}
use libtx.Port.Invariant.{Inv}
use libtx.Port.Ending.{Flies, Flies-alive, finish_object-Inv}
use libtx.Port.Safety.{Good}

-- Each operation that is reported is in flight when it is.
unfoldable pub Flying : List (WsaOverlapped × ℕ) → (ℕ → Flight) → Type 0
Flying [] n = Unit
Flying ((slot, p) ∷ es) n = Flies slot (n p) × Flying es (update n p (landed slot (n p)))

finish_object-in_flight :
    (slot : WsaOverlapped) (p : ℕ) (s : Net Port)
    → (finish_object slot p s).poll.in_flight ≡ s.poll.in_flight
unfolding finish_object release delete_object
finish_object-in_flight tx_send p s = elim (Option-cases (s.poll.objects p).tx_filp) [
  | inl e ↦ rw (e) (ground arith)
  | inr (f, e) ↦ rw (e) (ground arith)
]
finish_object-in_flight tx_recv p s = elim (Option-cases (s.poll.objects p).tx_filp) [
  | inl e ↦ rw (e) (ground arith)
  | inr (f, e) ↦ rw (e) (ground arith)
]

pub handle_each-Good :
    (es : List (WsaOverlapped × ℕ)) (s : Net Port)
    → Inv s.poll s.filps
    → Flying es s.poll.in_flight
    → Good (handle_each es s)
unfolding handle_each Flying handle_overlapped
handle_each-Good [] s v h = v
handle_each-Good ((slot, p) ∷ es) s v h = rw (Flies-alive s p v slot h.0) (
    handle_each-Good es (finish_object slot p (reported slot p s))
      (finish_object-Inv s p v slot h.0)
      (rw (finish_object-in_flight slot p (reported slot p s)) h.1))

pub polling-Good :
    (es : List (WsaOverlapped × ℕ)) (s : Net Port)
    → Inv s.poll s.filps
    → Flying es s.poll.in_flight
    → Good (tx_completion_port_polling es s)
unfolding tx_completion_port_polling
polling-Good es s v h =
    let g = handle_each-Good es s v h in
    elim (Option-cases (handle_each es s)) [
      | inl e ↦ absurd (subst Good e g)
      | inr (t, e) ↦ rw (e) (subst Good e g)
    ]

-- Which task waits for an operation of a descriptor, and whether the operation is reported to it.
abbrev waiting : WsaOverlapped → Aiocb → Option ℕ
waiting tx_send a = a.tx_filterout
waiting tx_recv a = a.tx_filterin

abbrev ready : WsaOverlapped → Aiocb → Bool
ready tx_send a = a.tx_flags.writable && not a.tx_flags.pollout
ready tx_recv a = a.tx_flags.readable && not a.tx_flags.pollin

-- On a running loop that the invariant describes, an operation of an attached descriptor that is in
-- flight ends: the call returns, the task that waited for it is busy and waits no more, the flags
-- say that the descriptor is ready, and its object stays.
pub ending-woken :
    (slot : WsaOverlapped) (f p t : ℕ) (s : Net Port)
    → Inv s.poll s.filps
    → s.poll.privp f ≡ some p
    → Flies slot (s.poll.in_flight p)
    → waiting slot (s.filps f) ≡ some t
    → s.loop.tx_stop ≡ false
    → (u : Net Port) × (handle_overlapped slot p (reported slot p s) ≡ some u)
      × ((flags_of u.loop t).busy ≡ true)
      × (waiting slot (u.filps f) ≡ none)
      × (ready slot (u.filps f) ≡ true)
      × (u.poll.alive p ≡ true)
      × (u.poll.privp f ≡ some p)
unfolding handle_overlapped finish_object release delete_object dec
ending-woken tx_send f p t s v e h w run =
    let own = v.owned f p e in
    let c = v.counted p own.0 in
    let b = active-busy t f s.loop run in
    (
      finish_object tx_send p (reported tx_send p s),
      rw (own.0) refl,
      (rw (own.1, w) (ground arith)),
      (rw (own.1, w) (ground arith)),
      (rw (own.1, w) (ground arith)),
      (rw (own.1, w) (ground arith)),
      (rw (own.1, w) (ground arith)),
    )
ending-woken tx_recv f p t s v e h w run =
    let own = v.owned f p e in
    let c = v.counted p own.0 in
    let b = active-busy t f s.loop run in
    (
      finish_object tx_recv p (reported tx_recv p s),
      rw (own.0) refl,
      (rw (own.1, w) (ground arith)),
      (rw (own.1, w) (ground arith)),
      (rw (own.1, w) (ground arith)),
      (rw (own.1, w) (ground arith)),
      (rw (own.1, w) (ground arith)),
    )
