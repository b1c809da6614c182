-- ===== src/Port/Cache.antt =====
-- The buffer `tx_cache` of an object of tx_completion_port.cpp, which holds what `WSASend` is to send.
use libtx.Common.{
  ==_refl, ◌≤◌, ℕ, ◌<◌, ◌≡◌, refl, true, false, ltb, leb, Option, none, some, List, arith, ◌∙◌,
  length, if_cases, subst,
}
use libtx.Common.Int.{ℤ, pos}
use libtx.Inet.{◌>>=◌}
use libtx.Aiocb.{Net, flags_at}
use libtx.Port.{set_object, Port, is_attached, object_of, start_send, below_four, cache_size}
use libtx.Port.Calls.{send_staged, tx_completion_port_sendout}
use libtx.Port.Steps.{Step, Steps, Fresh, Steps-Inv, Step-Inv, InvOf, sendout}
use libtx.Port.Kept.{Step-Kept}

-- Steps from a state, before each of which a send of the object `q` is in flight, and no `AcceptEx`.
pub data InFlight (q : ℕ) (s : Net Port) : Net Port → Type 0 where
  sent : InFlight q s s
  then_sent :
      {t : Net Port} (u : Net Port)
      → InFlight q s t
      → 0 < (t.poll.in_flight q).sends
      → (t.poll.in_flight q).accepting ≡ false
      → Step t u
      → InFlight q s u

InFlight-Inv : (q : ℕ) (s u : Net Port) → InFlight q s u → InvOf s → InvOf u
InFlight-Inv q s _ sent v = v
InFlight-Inv q s _ (then_sent {t = t} u i h b st) v = Step-Inv t u st (InFlight-Inv q s t i v)

InFlight-Kept :
    (q : ℕ) (s u : Net Port)
    → InFlight q s u
    → InvOf s
    → (u.poll.objects q).tx_cache ≡ (s.poll.objects q).tx_cache
InFlight-Kept q s _ sent v = refl
InFlight-Kept q s _ (then_sent {t = t} u i h b st) v =
    Step-Kept q t u (InFlight-Inv q s t i v) h b st ∙ InFlight-Kept q s t i v

-- What an accepted `WSASend` leaves, and what is returned.
abbrev Staged : ℕ → List ℕ → Option (ℤ × Net Port) → Type 0
Staged q buf none = Unit
Staged q buf (some (r, t)) = (r ≡ pos (length buf)) × ((t.poll.objects q).tx_cache ≡ buf)

sendout-Staged :
    (f q : ℕ) (buf : List ℕ) (s : Net Port)
    → InvOf s
    → is_attached f s ≡ true
    → (flags_at s f).pollout ≡ false
    → s.poll.privp f ≡ some q
    → 0 < length buf
    → length buf ≤ 8192
    → Staged q buf (tx_completion_port_sendout false 0 true f buf s)
unfolding tx_completion_port_sendout object_of send_staged start_send
sendout-Staged f q buf s v a idle e n m =
    let l : ltb 0 (length buf) ≡ true = ground arith in
    let k : leb (length buf) cache_size ≡ true = ground arith in
    let t = record s {
      poll = set_object q (record (s.poll.objects q) { tx_cache = buf }) s.poll;
    } in
    rw (idle, a, l, e, (v.owned f q e).0, k)
      (if_cases (λ m. Staged q buf (m >>= λ u. some (pos (length buf), u)))
        (below_four ((start_send f q t).poll.objects q).tx_refcnt)
        (λ _. (refl, ground (arith, ==_refl q))) (λ _. tt))

-- In every state that the operations reach from a new port, if `tx_completion_port_sendout` without
-- TX_MEMLOCK is called for an attached descriptor without a send in flight, with 1 to 8192 bytes of which
-- `send` takes none, and `WSASend` accepts them, then it returns their number. And as long as the
-- operation is in flight, whatever is called and reported, the buffer of the object that `WSASend` has
-- been given holds just these bytes, if no `AcceptEx` is in flight, which is given the same buffer.
pub Steps-cache :
    (s t u v : Net Port) (f q : ℕ) (buf : List ℕ) (r : ℤ)
    → Fresh s
    → Steps s t
    → is_attached f t ≡ true
    → (flags_at t f).pollout ≡ false
    → t.poll.privp f ≡ some q
    → 0 < length buf
    → length buf ≤ 8192
    → tx_completion_port_sendout false 0 true f buf t ≡ some (r, u)
    → InFlight q u v
    → (r ≡ pos (length buf)) × ((v.poll.objects q).tx_cache ≡ buf)
Steps-cache s t u v f q buf r w ss a idle e n m called i =
    let x = Steps-Inv s t ss w in
    let y = Step-Inv t u (sendout false 0 true f buf r u a n called) x in
    let z = subst (Staged q buf) called (sendout-Staged f q buf t x a idle e n m) in
    (z.0, InFlight-Kept q u v i y ∙ z.1)
