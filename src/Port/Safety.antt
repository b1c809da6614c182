-- ===== src/Port/Safety.antt =====
-- The operations of tx_completion_port.cpp as wholes: they return, and keep the invariant.
use libtx.Common.{
  refl, ℕ, ◌<◌, ◌≡◌, Bool, true, false, not, ◌&&◌, ltb, leb, Option, none, some, List, arith,
  ==_refl, Bool-cases, Option-cases, inl, inr, length, if_cases,
}
use libtx.Common.Int.{ℤ, pos, negsuc}
use libtx.Aiocb.{Net, flags_at}
use libtx.Inet.{◌>>=◌}
use libtx.Port.{
  Port, object_of, is_attached, start_send, start_recv, assert_refcnt, below_four, wake_out,
  wake_in, cache_size, set_object,
}
use libtx.Port.Calls.{
  accept_ex, send_staged, send_if, tx_completion_port_sendout, ConnectResult, connected, pending,
  failed, in_progress, tx_completion_port_connect, tx_completion_port_accept,
  tx_completion_port_pollout, tx_completion_port_attach, tx_completion_port_pollin,
  tx_completion_port_detach,
}
use libtx.Port.Invariant.{Inv, SameFlags-Inv, set_object-Inv, set_flight-Inv}
use libtx.Port.Starting.{
  start_send-Inv, start_recv-Inv, start_send-below_four, start_recv-below_four, attach_object-Inv,
}
use libtx.Port.Ending.{detach_object-Inv}

-- The operation returns, and the invariant holds.
abbrev pub Good : Option (Net Port) → Type 0
Good none = ⊥
Good (some s) = Inv s.poll s.filps

abbrev pub GoodWith : {A : Type 0} → Option (A × Net Port) → Type 0
GoodWith none = ⊥
GoodWith (some (a, s)) = Inv s.poll s.filps

wake_out-Inv :
    (s : Net Port) (f : ℕ)
    → (flags_at s f).pollout ≡ false
    → Inv s.poll s.filps
    → Inv (wake_out f s).poll (wake_out f s).filps
wake_out-Inv s f e v = SameFlags-Inv (wake_out f s).filps (λ q. ground arith) v

wake_in-Inv :
    (s : Net Port) (f : ℕ)
    → (flags_at s f).pollin ≡ false
    → Inv s.poll s.filps
    → Inv (wake_in f s).poll (wake_in f s).filps
wake_in-Inv s f e v = SameFlags-Inv (wake_in f s).filps (λ q. ground arith) v

-- The object of an attached descriptor.
record Owned (f : ℕ) (s : Net Port) : Type 0 where
  object : ℕ
  owns : s.poll.privp f ≡ some object
  found : object_of f s ≡ some object

attached-Owned : (f : ℕ) (s : Net Port) → Inv s.poll s.filps → is_attached f s ≡ true → Owned f s
unfolding object_of
attached-Owned f s v a = elim (Option-cases (s.poll.privp f)) [
  | inl e ↦ absurd (ground (arith, v.attached f))
  | inr (p, e) ↦ record { object = p; owns = e; found = rw (e) (ground (arith, v.owned f p)) }
]

abbrev cached : ℕ → List ℕ → Net Port → Net Port
cached p buf s = record s {
  poll = set_object p (record (s.poll.objects p) { tx_cache = buf }) s.poll;
}

send_staged-Good :
    (accepted : Bool) (f p len : ℕ) (s : Net Port)
    → Inv s.poll s.filps
    → s.poll.privp f ≡ some p
    → (flags_at s f).pollout ≡ false
    → GoodWith (send_staged accepted f p len s)
unfolding send_staged
send_staged-Good true f p len s v e idle =
    rw (start_send-below_four s f p v e idle) (start_send-Inv s f p v e idle)
send_staged-Good false f p len s v e idle = wake_out-Inv s f idle v

accept_ex-Inv :
    (s : Net Port) (p newfd : ℕ)
    → Inv s.poll s.filps
    → Inv (accept_ex p newfd s).poll (accept_ex p newfd s).filps
accept_ex-Inv s p newfd v =
    set_flight-Inv p (record (s.poll.in_flight p) { accepting = true }) refl refl
      (set_object-Inv p (record (s.poll.objects p) { tx_newfd = some newfd }) (refl, refl) v)

module _ {f : ℕ} (s : Net Port) (p : ℕ) (v : Inv s.poll s.filps) (e : s.poll.privp f ≡ some p) where
  started : (flags_at s f).pollin ≡ false → Good (assert_refcnt p (start_recv f p s))
  started idle = rw (start_recv-below_four s f p v e idle) (start_recv-Inv s f p v e idle)

  refused : Good (assert_refcnt p s)
  refused =
      let own = v.owned f p e in
      let below : below_four (s.poll.objects p).tx_refcnt ≡ true =
        ground (arith, v.counted p, v.single p, ==_refl p) in
      rw (below) v

module _ (s : Net Port) (f : ℕ) (v : Inv s.poll s.filps) where
  -- Writing to an attached descriptor.
  pub sendout-Good :
      (memlock : Bool) (sent : ℕ) (accepted : Bool) (buf : List ℕ)
      → is_attached f s ≡ true
      → 0 < length buf
      → GoodWith (tx_completion_port_sendout memlock sent accepted f buf s)
  unfolding tx_completion_port_sendout
  sendout-Good memlock sent accepted buf a len = elim (Bool-cases (flags_at s f).pollout) [
    | inl busy ↦ rw (busy) v
    | inr idle ↦
        let o = attached-Owned f s v a in
        let n : ltb 0 (length buf) ≡ true = ground arith in
        rw (idle, a, n, o.found)
          (if_cases GoodWith (ltb 0 sent) (λ _. v)
            (λ _.
              if_cases (λ st. GoodWith (send_if accepted f o.object (length buf) s st)) memlock
                (λ _. send_staged-Good accepted f o.object (length buf) s v o.owns idle)
                (λ _.
                  if_cases (λ st. GoodWith (send_if accepted f o.object (length buf) s st))
                    (leb (length buf) cache_size)
                    (λ _.
                      send_staged-Good accepted f o.object (length buf) (cached o.object buf s)
                        (set_object-Inv o.object _ (ground (arith, ==_refl o.object)) v) o.owns
                        idle)
                    (λ _. v))))
  ]

  pub connect-Good :
      (r : ConnectResult) → is_attached f s ≡ true → GoodWith (tx_completion_port_connect r f s)
  unfolding tx_completion_port_connect
  connect-Good r a = elim (Bool-cases (flags_at s f).pollout) [
    | inl busy ↦ rw (busy) v
    | inr idle ↦
        let o = attached-Owned f s v a in
        let below = start_send-below_four s f o.object v o.owns idle in
        let kept = start_send-Inv s f o.object v o.owns idle in
        rw (idle, a, o.found)
          (elim r
            as (λ x. GoodWith (elim x as (λ _. Option (ℤ × Net Port)) [
              | connected ↦
                  assert_refcnt o.object (start_send f o.object s) >>= λ t. some (pos 0, t)
              | pending ↦
                  assert_refcnt o.object (start_send f o.object s) >>= λ t. some (in_progress, t)
              | failed ↦ some (negsuc 0, s)
            ])) [ connected ↦ rw (below) kept | pending ↦ rw (below) kept | failed ↦ v ])
  ]

  pub accept-Good : is_attached f s ≡ true → GoodWith (tx_completion_port_accept f s)
  unfolding tx_completion_port_accept
  accept-Good a =
      let o = attached-Owned f s v a in
      if_cases GoodWith ((flags_at s f).tx_listen && (flags_at s f).readable)
        (λ _. rw (o.found) (
          SameFlags-Inv _ (λ q. ground arith)
            (set_object-Inv o.object _ (ground (arith, ==_refl o.object)) v)))
        (λ _. v)

  pub attach-Good :
      (p : ℕ)
      → s.poll.alive p ≡ false
      → (flags_at s f).pollin ≡ false
      → (flags_at s f).pollout ≡ false
      → Good (tx_completion_port_attach true (some p) f s)
  unfolding tx_completion_port_attach
  attach-Good p free i o =
      elim (Bool-cases (not (flags_at s f).attached && not (flags_at s f).detached)) [
        | inl new ↦ rw (new) (attach_object-Inv s f p v free (ground arith) (ground arith) i o)
        | inr old ↦ rw (old) v
      ]

  pub pollin-Good :
      (accepted : Bool) (newfd : ℕ)
      → is_attached f s ≡ true
      → Good (tx_completion_port_pollin accepted newfd f s)
  unfolding tx_completion_port_pollin
  pollin-Good accepted newfd a = elim (Bool-cases (flags_at s f).pollin) [
    | inl busy ↦ rw (busy) v
    | inr idle ↦
        let o = attached-Owned f s v a in
        rw (idle, a, o.found)
          (if_cases (Good) accepted
            (λ _.
              if_cases (λ t. Good (assert_refcnt o.object (start_recv f o.object t)))
                (flags_at s f).tx_listen
                (λ _.
                  started (accept_ex o.object newfd s) o.object (accept_ex-Inv s o.object newfd v)
                    o.owns idle)
                (λ _. started s o.object v o.owns idle))
            (λ _.
              if_cases (λ t. Good (assert_refcnt o.object t)) (flags_at s f).tx_listen
                (λ _. refused s o.object v o.owns)
                (λ _. refused (wake_in f s) o.object (wake_in-Inv s f idle v) o.owns)))
  ]

  pub detach-Good : Good (tx_completion_port_detach f s)
  unfolding tx_completion_port_detach
  detach-Good = elim (Bool-cases (is_attached f s)) [
    | inl a ↦
        let o = attached-Owned f s v a in rw (a, o.found) (detach_object-Inv s f o.object v o.owns)
    | inr a ↦ rw (a) v
  ]

  pub pollout-Good : is_attached f s ≡ true → Good (tx_completion_port_pollout f s)
  unfolding tx_completion_port_pollout
  pollout-Good a = rw (a) (if_cases Good (flags_at s f).pollout (λ _. v) (λ _. v))
