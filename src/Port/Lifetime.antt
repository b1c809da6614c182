-- ===== src/Port/Lifetime.antt =====
-- How long the objects of tx_completion_port.cpp live, and what its assertions say of their counts.
use libtx.Common.{
  not, ◌&&◌, if_cases, ℕ, ◌+◌, ◌≤◌, ◌<◌, ◌≡◌, ◌≢◌, ◌⊎◌, ◌↔◌, Bool, true, false, none, some, List,
  arith, ◌∙◌, length, Option-cases, inl, inr, subst, Bool-cases,
}
use libtx.Common.Int.{pos}
use libtx.Aiocb.{flags_at, Net}
use libtx.Aiocb.Weights.{is_in}
use libtx.Port.{Port, WsaOverlapped, is_attached, tx_completion_port_polling}
use libtx.Port.Calls.{
  tx_completion_port_pollout, tx_completion_port_attach, tx_completion_port_sendout, ConnectResult,
  tx_completion_port_connect, tx_completion_port_accept, tx_completion_port_pollin,
  tx_completion_port_detach,
}
use libtx.Port.Invariant.{Inv, holders}
use libtx.Port.Safety.{
  Good, GoodWith, sendout-Good, connect-Good, accept-Good, pollin-Good, detach-Good, pollout-Good,
}
use libtx.Port.Polling.{Flying, polling-Good}
use libtx.Port.Steps.{Steps, Fresh, Steps-Inv}

-- Somebody holds the object `p`: a descriptor, or an operation in flight.
abbrev pub Held : ℕ → Net Port → Type 0
Held p s =
    ((f : ℕ) × (s.poll.privp f ≡ some p))
    ⊎ (0 < (s.poll.in_flight p).sends + (s.poll.in_flight p).recvs)

alive-Held : (s : Net Port) (p : ℕ) → Inv s.poll s.filps → s.poll.alive p ≡ true → Held p s
alive-Held s p v a = elim (Option-cases (s.poll.objects p).tx_filp) [
  | inl e ↦ inr (ground (arith, v.held p))
  | inr (f, e) ↦ inl (f, v.owner f p a e)
]

Held-alive : (s : Net Port) (p : ℕ) → Inv s.poll s.filps → Held p s → s.poll.alive p ≡ true
Held-alive s p v (inl (f, e)) = (v.owned f p e).0
Held-alive s p v (inr h) = ground (arith, v.landed p)

alive-count :
    (s : Net Port) (p : ℕ)
    → Inv s.poll s.filps
    → s.poll.alive p ≡ true
    → (n : ℕ) × ((s.poll.objects p).tx_refcnt ≡ pos n) × (1 ≤ n) × (n ≤ 3)
alive-count s p v a = (
  holders (s.poll.objects p) (s.poll.in_flight p),
  v.counted p a,
  v.held p a,
  ground (arith, v.single p),
)

-- In every state that the operations reach from a new port, an object is allocated if and only if a
-- descriptor holds it or an operation of it is in flight. If it is allocated it is in the list of the
-- port and its count is from 1 to 3, and if not it is not in the list.
pub Steps-alive :
    (s t : Net Port) (p : ℕ)
    → Steps s t
    → Fresh s
    → ((t.poll.alive p ≡ true) ↔ Held p t)
      × (((t.poll.alive p ≡ true)
            × (is_in p t.poll.port_list ≡ true)
            × ((n : ℕ) × ((t.poll.objects p).tx_refcnt ≡ pos n) × (1 ≤ n) × (n ≤ 3)))
          ⊎ ((t.poll.alive p ≡ false) × (is_in p t.poll.port_list ≡ false)))
Steps-alive s t p ss w =
    let v = Steps-Inv s t ss w in
    (
      (alive-Held t p v, Held-alive t p v),
      elim (Bool-cases (t.poll.alive p)) [
        | inl a ↦ inl (a, v.listed p ∙ a, alive-count t p v a)
        | inr a ↦ inr (a, v.listed p ∙ a)
      ],
    )

attach-returns : (s : Net Port) (f p : ℕ) → tx_completion_port_attach true (some p) f s ≢ none
unfolding tx_completion_port_attach
attach-returns s f p =
    if_cases (λ m. m ≢ none) (not (flags_at s f).attached && not (flags_at s f).detached)
      (λ _ e. cc) (λ _ e. cc)

-- In every state that the operations reach from a new port, the calls for an attached descriptor
-- return, whatever the system answers, if what is to be sent is not empty: no assertion of theirs fails,
-- and no object that is not allocated is used. So does attaching any descriptor, if the system and `new`
-- do not fail, and the poll, if the system reports what is in flight.
pub Steps-return :
    (s t : Net Port) (f g p newfd sent : ℕ) (accepted memlock : Bool) (buf : List ℕ)
    → (how : ConnectResult) (es : List (WsaOverlapped × ℕ)) → Steps s t
    → Fresh s
    → is_attached f t ≡ true
    → 0 < length buf
    → Flying es t.poll.in_flight
    → (tx_completion_port_pollin accepted newfd f t ≢ none)
      × (tx_completion_port_pollout f t ≢ none)
      × (tx_completion_port_sendout memlock sent accepted f buf t ≢ none)
      × (tx_completion_port_connect how f t ≢ none)
      × (tx_completion_port_accept f t ≢ none)
      × (tx_completion_port_detach f t ≢ none)
      × (tx_completion_port_attach true (some p) g t ≢ none)
      × (tx_completion_port_polling es t ≢ none)
Steps-return s t f g p newfd sent accepted memlock buf how es ss w a n fly =
    let v = Steps-Inv s t ss w in
    (
      λ e. subst Good e (pollin-Good t f v accepted newfd a),
      λ e. subst Good e (pollout-Good t f v a),
      λ e. subst GoodWith e (sendout-Good t f v memlock sent accepted buf a n),
      λ e. subst GoodWith e (connect-Good t f v how a),
      λ e. subst GoodWith e (accept-Good t f v a),
      λ e. subst Good e (detach-Good t f v),
      attach-returns t g p,
      λ e. subst Good e (polling-Good es t v fly),
    )
