-- ===== src/Port/Ending.antt =====
-- Descriptors that are detached, and operations that end (tx_completion_port.cpp), under the
-- invariant.
use libtx.Common.{ℕ, ◌<◌, ◌≡◌, true, some, arith, Option-cases, inl, inr}
use libtx.Common.Int.{dec}
use libtx.Aiocb.{Net}
use libtx.Epoll.Count.{bit}
use libtx.Port.{
  Flight, Port, WsaOverlapped, tx_send, tx_recv, release, delete_object, reported, finish_object,
}
use libtx.Port.Calls.{detach_object}
use libtx.Port.Invariant.{Inv, is_in-remove, NoRepeat-remove}

module _ (s : Net Port) (f p : ℕ) (v : Inv s.poll s.filps) (e : s.poll.privp f ≡ some p) where
  pub detach_object-Inv : Inv (detach_object f p s).poll (detach_object f p s).filps
  unfolding detach_object release delete_object dec
  detach_object-Inv =
      let own = v.owned f p e in
      let now = v.counted p own.0 in
      record {
        attached = λ g. ground (arith, v.attached g);
        owned = λ g q h. ground (arith, v.owned g q, v.owner g p, v.counted q);
        owner = λ g q a h. ground (arith, v.owner g q);
        flagged = λ g q h. ground (arith, v.flagged g q, v.owned g q);
        single = λ q. ground (arith, v.single q);
        counted = λ q a. ground (arith, v.counted q);
        held = λ q a. ground (arith, v.held q, v.counted q);
        landed = λ q a. ground (arith, v.landed q, v.counted q);
        listed = λ q. ground (arith, v.listed q, is_in-remove p q s.poll.port_list);
        once = ground (arith, v.once, NoRepeat-remove p s.poll.port_list v.once);
      }

-- An operation of the object is in flight.
abbrev pub Flies : WsaOverlapped → Flight → Type 0
Flies tx_send n = 0 < n.sends
Flies tx_recv n = 0 < n.recvs

module _ (s : Net Port) (p : ℕ) (v : Inv s.poll s.filps) where
  pub Flies-alive : (slot : WsaOverlapped) → Flies slot (s.poll.in_flight p) → s.poll.alive p ≡ true
  Flies-alive tx_send h = ground (arith, v.landed p)
  Flies-alive tx_recv h = ground (arith, v.landed p)

  finish_object-flagged :
      (slot : WsaOverlapped)
      → Flies slot (s.poll.in_flight p)
      → (g q : ℕ) → (finish_object slot p (reported slot p s)).poll.privp g ≡ some q
      → (((finish_object slot p (reported slot p s)).poll.in_flight q).sends
          ≡ bit ((finish_object slot p (reported slot p s)).filps g).tx_flags.pollout)
        × (((finish_object slot p (reported slot p s)).poll.in_flight q).recvs
            ≡ bit ((finish_object slot p (reported slot p s)).filps g).tx_flags.pollin)
  unfolding finish_object release delete_object dec
  finish_object-flagged slot h g q k = elim (Option-cases (s.poll.objects p).tx_filp) [
    | inl e ↦
        let a = Flies-alive slot h in
        rw (e) (ground (arith, v.flagged g q, v.owned g q, v.counted p a))
    | inr (f, e) ↦
        let a = Flies-alive slot h in
        rw (e) (
          ground (arith, v.flagged g q, v.owned g q, v.counted p a, v.owner f p a e, v.flagged f p))
  ]

  -- An operation that was in flight ends.
  pub finish_object-Inv :
      (slot : WsaOverlapped)
      → Flies slot (s.poll.in_flight p)
      → Inv
          (finish_object slot p (reported slot p s)).poll
          (finish_object slot p (reported slot p s)).filps
  unfolding finish_object release delete_object dec
  finish_object-Inv slot h =
      let a = Flies-alive slot h in
      let now = v.counted p a in
      record {
        attached = λ g. ground (arith, v.attached g);
        owned = λ g q k. ground (arith, v.owned g q, v.owner g p, v.counted q);
        owner = λ g q b k. ground (arith, v.owner g q);
        flagged = finish_object-flagged slot h;
        single = λ q. ground (arith, v.single q);
        counted = λ q b. ground (arith, v.counted q);
        held = λ q b. ground (arith, v.held q, v.counted q);
        landed = λ q b. ground (arith, v.landed q, v.counted q);
        listed = λ q. ground (arith, v.listed q, is_in-remove p q s.poll.port_list);
        once = ground (arith, v.once, NoRepeat-remove p s.poll.port_list v.once);
      }
