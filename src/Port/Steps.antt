-- ===== src/Port/Steps.antt =====
-- The states that the operations of tx_completion_port.cpp reach, and what holds in all of them.
use libtx.Common.{
  refl, ℕ, ◌<◌, ◌≡◌, Bool, true, false, Option, none, some, List, [], arith, sym, length, subst,
}
use libtx.Common.Int.{ℤ}
use libtx.Aiocb.{Net, flags_at, blank, set_filp}
use libtx.Aiocb.Weights.{NoRepeat}
use libtx.Port.{set_object, Port, WsaOverlapped, is_attached, tx_completion_port_polling}
use libtx.Port.Calls.{
  tx_completion_port_sendout, ConnectResult, tx_completion_port_connect, tx_completion_port_accept,
  tx_completion_port_pollout, tx_completion_port_attach, tx_completion_port_pollin,
  tx_completion_port_detach,
}
use libtx.Port.Invariant.{Inv, SameFlags, SameFlags-Inv, set_object-Inv}
use libtx.Port.Safety.{
  Good, GoodWith, sendout-Good, connect-Good, accept-Good, attach-Good, pollin-Good, detach-Good,
  pollout-Good,
}
use libtx.Port.Polling.{Flying, polling-Good}

-- The buffer of an object is overwritten.
abbrev pub written_to : ℕ → List ℕ → Net Port → Net Port
written_to p bytes s = record s {
  poll = set_object p (record (s.poll.objects p) { tx_cache = bytes }) s.poll;
}

-- A call of an operation, by the rules of its callers: it is for an attached descriptor, unless it is
-- to attach or detach one, a new object is memory that was not allocated, and the system reports only
-- what is in flight. `acceptex_writes` is the system, which writes into the buffer that an `AcceptEx` in
-- flight has been given. `elsewhere` is what the rest of the program does, and `renew` is `tx_aiocb_init`
-- for a descriptor that has no object.
pub data Step (s : Net Port) : Net Port → Type 0 where
  attach :
      (f p : ℕ) (t : Net Port)
      → s.poll.alive p ≡ false
      → (flags_at s f).pollin ≡ false
      → (flags_at s f).pollout ≡ false
      → tx_completion_port_attach true (some p) f s ≡ some t
      → Step s t
  detach : (f : ℕ) (t : Net Port) → tx_completion_port_detach f s ≡ some t → Step s t
  pollin :
      (accepted : Bool) (newfd f : ℕ) (t : Net Port)
      → is_attached f s ≡ true
      → tx_completion_port_pollin accepted newfd f s ≡ some t
      → Step s t
  pollout :
      (f : ℕ) (t : Net Port)
      → is_attached f s ≡ true
      → tx_completion_port_pollout f s ≡ some t
      → Step s t
  sendout :
      (memlock : Bool) (sent : ℕ) (accepted : Bool) (f : ℕ) (buf : List ℕ) (r : ℤ) (t : Net Port)
      → is_attached f s ≡ true
      → 0 < length buf
      → tx_completion_port_sendout memlock sent accepted f buf s ≡ some (r, t)
      → Step s t
  connect :
      (how : ConnectResult) (f : ℕ) (r : ℤ) (t : Net Port)
      → is_attached f s ≡ true
      → tx_completion_port_connect how f s ≡ some (r, t)
      → Step s t
  accept :
      (f : ℕ) (r : Option ℕ) (t : Net Port)
      → is_attached f s ≡ true
      → tx_completion_port_accept f s ≡ some (r, t)
      → Step s t
  poll :
      (es : List (WsaOverlapped × ℕ)) (t : Net Port)
      → Flying es s.poll.in_flight
      → tx_completion_port_polling es s ≡ some t
      → Step s t
  acceptex_writes :
      (p : ℕ) (addresses : List ℕ)
      → 0 < (s.poll.in_flight p).recvs
      → (s.poll.in_flight p).accepting ≡ true
      → Step s (written_to p addresses s)
  elsewhere : (t : Net Port) → t.poll ≡ s.poll → SameFlags s.filps t.filps → Step s t
  renew : (f : ℕ) (fd : Option ℕ) → s.poll.privp f ≡ none → Step s (set_filp f (blank fd) s)

pub data Steps : Net Port → Net Port → Type 0 where
  no_step : {s : Net Port} → Steps s s
  then_step : {s t u : Net Port} → Steps s t → Step t u → Steps s u

abbrev pub InvOf : Net Port → Type 0
InvOf s = Inv s.poll s.filps

renew-Inv :
    (s : Net Port) (f : ℕ) (fd : Option ℕ)
    → s.poll.privp f ≡ none
    → InvOf s
    → InvOf (set_filp f (blank fd) s)
renew-Inv s f fd e v = record {
  attached = λ g. ground (arith, v.attached g);
  owned = v.owned;
  owner = v.owner;
  flagged = λ g p h. ground (arith, v.flagged g p);
  single = v.single;
  counted = v.counted;
  held = v.held;
  landed = v.landed;
  listed = v.listed;
  once = v.once;
}

pub Step-Inv : (s t : Net Port) → Step s t → InvOf s → InvOf t
Step-Inv s _ (attach f p t free i o e) v = subst Good e (attach-Good s f v p free i o)
Step-Inv s _ (detach f t e) v = subst Good e (detach-Good s f v)
Step-Inv s _ (pollin accepted newfd f t a e) v = subst Good e (pollin-Good s f v accepted newfd a)
Step-Inv s _ (pollout f t a e) v = subst Good e (pollout-Good s f v a)
Step-Inv s _ (sendout memlock sent accepted f buf r t a n e) v =
    subst GoodWith e (sendout-Good s f v memlock sent accepted buf a n)
Step-Inv s _ (connect how f r t a e) v = subst GoodWith e (connect-Good s f v how a)
Step-Inv s _ (accept f r t a e) v = subst GoodWith e (accept-Good s f v a)
Step-Inv s _ (poll es t h e) v = subst Good e (polling-Good es s v h)
Step-Inv s _ (acceptex_writes p addresses r a) v =
    set_object-Inv p (record (s.poll.objects p) { tx_cache = addresses }) (refl, refl) v
Step-Inv s _ (elsewhere t p same) v =
    subst (λ q. Inv q t.filps) (sym p) (SameFlags-Inv t.filps same v)
Step-Inv s _ (renew f fd e) v = renew-Inv s f fd e v

-- A port that `tx_completion_port_init` has made: no object, and nothing attached or in flight.
pub record Fresh (s : Net Port) : Type 0 where
  pub no_list : s.poll.port_list ≡ []
  pub no_object : (p : ℕ) → s.poll.alive p ≡ false
  pub no_owner : (f : ℕ) → s.poll.privp f ≡ none
  pub no_flight : (p : ℕ) → ((s.poll.in_flight p).sends ≡ 0) × ((s.poll.in_flight p).recvs ≡ 0)
  pub unattached : (f : ℕ) → (flags_at s f).attached ≡ false

Fresh-Inv : (s : Net Port) → Fresh s → InvOf s
Fresh-Inv s w = record {
  attached = λ f. ground (arith, w.no_owner f, w.unattached f);
  owned = λ f p e. ground (arith, w.no_owner f);
  owner = λ f p a e. ground (arith, w.no_object p);
  flagged = λ f p e. ground (arith, w.no_owner f);
  single = λ p. ground (arith, w.no_flight p);
  counted = λ p a. ground (arith, w.no_object p);
  held = λ p a. ground (arith, w.no_object p);
  landed = λ p a. w.no_flight p;
  listed = λ p. ground (arith, w.no_object p, w.no_list);
  once = subst NoRepeat (sym w.no_list) tt;
}

-- From a port that has just been made, the invariant holds in every state that the operations reach.
pub Steps-Inv : (s t : Net Port) → Steps s t → Fresh s → InvOf t
Steps-Inv s _ no_step w = Fresh-Inv s w
Steps-Inv s u (then_step {t = t} ss st) w = Step-Inv t u st (Steps-Inv s t ss w)
