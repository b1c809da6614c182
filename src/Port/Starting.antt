-- ===== src/Port/Starting.antt =====
-- Operations that are started, and descriptors that are attached (tx_completion_port.cpp), under the
-- invariant.
use libtx.Common.{ℕ, ◌≡◌, true, false, some, arith, ==_refl}
use libtx.Common.Int.{inc}
use libtx.Aiocb.{Net, flags_at}
use libtx.Port.{Port, start_send, start_recv, below_four}
use libtx.Port.Calls.{attach_object}
use libtx.Port.Invariant.{Inv}

module _ (s : Net Port) (f p : ℕ) (v : Inv s.poll s.filps) where
  pub start_send-Inv :
      s.poll.privp f ≡ some p
      → (flags_at s f).pollout ≡ false
      → Inv (start_send f p s).poll (start_send f p s).filps
  unfolding start_send inc
  start_send-Inv e out =
      let own = v.owned f p e in
      let now = v.flagged f p e in
      record {
        attached = λ g. ground (arith, v.attached g);
        owned = λ g q h. ground (arith, v.owned g q);
        owner = λ g q a h. ground (arith, v.owner g q);
        flagged = λ g q h. ground (arith, v.flagged g q, v.owned g q);
        single = λ q. ground (arith, v.single q);
        counted = λ q a. ground (arith, v.counted q);
        held = λ q a. ground (arith, v.held q);
        landed = λ q a. ground (arith, v.landed q);
        listed = v.listed;
        once = v.once;
      }

  pub start_recv-Inv :
      s.poll.privp f ≡ some p
      → (flags_at s f).pollin ≡ false
      → Inv (start_recv f p s).poll (start_recv f p s).filps
  unfolding start_recv inc
  start_recv-Inv e out =
      let own = v.owned f p e in
      let now = v.flagged f p e in
      record {
        attached = λ g. ground (arith, v.attached g);
        owned = λ g q h. ground (arith, v.owned g q);
        owner = λ g q a h. ground (arith, v.owner g q);
        flagged = λ g q h. ground (arith, v.flagged g q, v.owned g q);
        single = λ q. ground (arith, v.single q);
        counted = λ q a. ground (arith, v.counted q);
        held = λ q a. ground (arith, v.held q);
        landed = λ q a. ground (arith, v.landed q);
        listed = v.listed;
        once = v.once;
      }

  -- The count of an object whose operation has just been started is at most 3.
  pub start_send-below_four :
      s.poll.privp f ≡ some p
      → (flags_at s f).pollout ≡ false
      → below_four ((start_send f p s).poll.objects p).tx_refcnt ≡ true
  unfolding start_send inc
  start_send-below_four e out =
      let own = v.owned f p e in ground (arith, v.counted p, v.flagged f p e, v.single p, ==_refl p)

  pub start_recv-below_four :
      s.poll.privp f ≡ some p
      → (flags_at s f).pollin ≡ false
      → below_four ((start_recv f p s).poll.objects p).tx_refcnt ≡ true
  unfolding start_recv inc
  start_recv-below_four e out =
      let own = v.owned f p e in ground (arith, v.counted p, v.flagged f p e, v.single p, ==_refl p)

  -- A new object, for a descriptor without flags of an operation.
  pub attach_object-Inv :
      s.poll.alive p ≡ false
      → (flags_at s f).attached ≡ false
      → (flags_at s f).detached ≡ false
      → (flags_at s f).pollin ≡ false
      → (flags_at s f).pollout ≡ false
      → Inv (attach_object f p s).poll (attach_object f p s).filps
  unfolding attach_object
  attach_object-Inv free a d i o =
      let none_yet = v.attached f in
      let quiet = v.landed p free in
      record {
        attached = λ g. ground (arith, v.attached g);
        owned = λ g q h. ground (arith, v.owned g q);
        owner = λ g q b h. ground (arith, v.owner g q, v.owned f q);
        flagged = λ g q h. ground (arith, v.flagged g q, v.owned g q);
        single = v.single;
        counted = λ q b. ground (arith, v.counted q);
        held = λ q b. ground (arith, v.held q);
        landed = λ q b. ground (arith, v.landed q);
        listed = λ q. ground (arith, v.listed q);
        once = ground (arith, v.listed p);
      }
