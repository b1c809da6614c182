-- ===== src/Port/Kept.antt =====
-- The buffer `tx_cache` of an object of tx_completion_port.cpp, in each call and poll.
use libtx.Common.{
  ℕ, ◌<◌, ◌≡◌, ◌≢◌, refl, Bool, true, false, not, ◌&&◌, ltb, leb, Option, none, some, List, [], ◌∷◌,
  arith, ap, ◌∙◌, Option-cases, Bool-cases, inl, inr, length, if◌then◌else◌, if_cases, subst,
}
use libtx.Common.Int.{ℤ, pos, negsuc}
use libtx.Inet.{◌>>=◌}
use libtx.Aiocb.{Net, flags_at}
use libtx.Port.{
  Port, WsaOverlapped, tx_send, tx_recv, is_attached, object_of, start_send, start_recv,
  assert_refcnt, below_four, wake_in, cache_size, finish_object, release, delete_object,
  handle_overlapped, reported, handle_each, tx_completion_port_polling,
}
use libtx.Port.Calls.{
  stage, send_staged, send_if, in_progress, connected, pending, failed, attach_object, keep_newfd,
  detach_object, tx_completion_port_sendout, ConnectResult, tx_completion_port_connect,
  tx_completion_port_accept, tx_completion_port_pollout, tx_completion_port_attach,
  tx_completion_port_pollin, tx_completion_port_detach,
}
use libtx.Port.Invariant.{Inv}
use libtx.Port.Steps.{
  Step, acceptex_writes, attach, detach, pollin, pollout, sendout, connect, accept, poll, elsewhere,
  renew,
}

-- The buffer of `q` is as it was, in all that an operation gives.
abbrev Kept : ℕ → Net Port → Option (Net Port) → Type 0
Kept q s none = Unit
Kept q s (some t) = (t.poll.objects q).tx_cache ≡ (s.poll.objects q).tx_cache

abbrev KeptWith : {A : Type 0} → ℕ → Net Port → Option (A × Net Port) → Type 0
KeptWith q s none = Unit
KeptWith q s (some (a, t)) = (t.poll.objects q).tx_cache ≡ (s.poll.objects q).tx_cache

bind-Kept :
    {A : Type 0} (q : ℕ) (s : Net Port) (m : Option A) (k : A → Option (Net Port))
    → ((a : A) → m ≡ some a → Kept q s (k a))
    → Kept q s (m >>= k)
bind-Kept q s none k h = tt
bind-Kept q s (some a) k h = h a refl

bind-KeptWith :
    {A B : Type 0} (q : ℕ) (s : Net Port) (m : Option A) (k : A → Option (B × Net Port))
    → ((a : A) → m ≡ some a → KeptWith q s (k a))
    → KeptWith q s (m >>= k)
bind-KeptWith q s none k h = tt
bind-KeptWith q s (some a) k h = h a refl

guarded :
    (m : Option ℕ) (alive : ℕ → Bool) (p : ℕ)
    → (m >>= λ r. if alive r then some r else none) ≡ some p
    → m ≡ some p
guarded none alive p e = e
guarded (some a) alive p e = ground arith

module _ (q : ℕ) (s : Net Port) where
  assert-Kept :
      (p : ℕ) (t : Net Port)
      → (t.poll.objects q).tx_cache ≡ (s.poll.objects q).tx_cache
      → Kept q s (assert_refcnt p t)
  assert-Kept p t e =
      if_cases (Kept q s) (below_four (t.poll.objects p).tx_refcnt) (λ _. e) (λ _. tt)

  pollin-Kept :
      (accepted : Bool) (newfd f : ℕ) → Kept q s (tx_completion_port_pollin accepted newfd f s)
  unfolding tx_completion_port_pollin start_recv
  pollin-Kept accepted newfd f =
      if_cases (Kept q s) (flags_at s f).pollin (λ _. refl)
        (λ _.
          if_cases (Kept q s) (is_attached f s)
            (λ _. bind-Kept q s (object_of f s) _ (λ p _.
              if_cases (Kept q s) accepted
                (λ _.
                  assert-Kept p (start_recv f p (keep_newfd (flags_at s f).tx_listen p newfd s))
                    (ground arith))
                (λ _.
                  assert-Kept p (if (flags_at s f).tx_listen then s else wake_in f s)
                    (ground arith))))
            (λ _. tt))

  pollout-Kept : (f : ℕ) → Kept q s (tx_completion_port_pollout f s)
  unfolding tx_completion_port_pollout
  pollout-Kept f =
      if_cases (Kept q s) (flags_at s f).pollout (λ _. refl)
        (λ _. if_cases (Kept q s) (is_attached f s) (λ _. refl) (λ _. tt))

  detach-Kept : (f : ℕ) → Kept q s (tx_completion_port_detach f s)
  unfolding tx_completion_port_detach detach_object release delete_object
  detach-Kept f =
      if_cases (Kept q s) (is_attached f s)
        (λ _. bind-Kept q s (object_of f s) _ (λ p _. ground arith)) (λ _. refl)

  attach-Kept : (p f : ℕ) → q ≢ p → Kept q s (tx_completion_port_attach true (some p) f s)
  unfolding tx_completion_port_attach attach_object
  attach-Kept p f n =
      if_cases (Kept q s) (not (flags_at s f).attached && not (flags_at s f).detached)
        (λ _. ground arith) (λ _. refl)

  accept-Kept : (f : ℕ) → KeptWith q s (tx_completion_port_accept f s)
  unfolding tx_completion_port_accept
  accept-Kept f =
      if_cases (KeptWith q s) ((flags_at s f).tx_listen && (flags_at s f).readable)
        (λ _. bind-KeptWith q s (object_of f s) _ (λ p _. ground arith)) (λ _. refl)

  start_send-Kept :
      {A : Type 0} (p f : ℕ) (a : A)
      → KeptWith q s (assert_refcnt p (start_send f p s) >>= λ t. some (a, t))
  unfolding start_send
  start_send-Kept p f a =
      if_cases (λ m. KeptWith q s (m >>= λ t. some (a, t)))
        (below_four ((start_send f p s).poll.objects p).tx_refcnt) (λ _. ground arith) (λ _. tt)

  connect-Kept : (how : ConnectResult) (f : ℕ) → KeptWith q s (tx_completion_port_connect how f s)
  unfolding tx_completion_port_connect
  connect-Kept how f =
      if_cases (KeptWith q s) (flags_at s f).pollout (λ _. refl)
        (λ _.
          if_cases (KeptWith q s) (is_attached f s)
            (λ _. bind-KeptWith q s (object_of f s) _ (λ p _.
              (elim how
                as (λ x. KeptWith q s (elim x as (λ _. Option (ℤ × Net Port)) [
                  | connected ↦ assert_refcnt p (start_send f p s) >>= λ t. some (pos 0, t)
                  | pending ↦ assert_refcnt p (start_send f p s) >>= λ t. some (in_progress, t)
                  | failed ↦ some (negsuc 0, s)
                ])) [
                  | connected ↦ start_send-Kept p f (pos 0)
                  | pending ↦ start_send-Kept p f in_progress
                  | failed ↦ refl
                ])))
            (λ _. tt))

  send_if-Kept :
      (accepted : Bool) (f p len : ℕ) (m : Option (Net Port))
      → Kept q s m
      → KeptWith q s (send_if accepted f p len s m)
  unfolding send_staged start_send
  send_if-Kept accepted f p len none k = refl
  send_if-Kept true f p len (some t) k =
      if_cases (λ m. KeptWith q s (m >>= λ t. some (pos len, t)))
        (below_four ((start_send f p t).poll.objects p).tx_refcnt) (λ _. ground arith) (λ _. tt)
  send_if-Kept false f p len (some t) k = k

  object_of-privp : (f p : ℕ) → object_of f s ≡ some p → s.poll.privp f ≡ some p
  unfolding object_of
  object_of-privp f p e = guarded (s.poll.privp f) s.poll.alive p e

  sendout-Kept :
      (memlock : Bool) (sent : ℕ) (accepted : Bool) (f : ℕ) (buf : List ℕ)
      → Inv s.poll s.filps
      → 0 < (s.poll.in_flight q).sends
      → KeptWith q s (tx_completion_port_sendout memlock sent accepted f buf s)
  unfolding tx_completion_port_sendout
  sendout-Kept memlock sent accepted f buf v h = elim (Bool-cases (flags_at s f).pollout) [
    | inl busy ↦ rw (busy) refl
    | inr idle ↦ rw (idle) (
        if_cases (KeptWith q s) (is_attached f s && ltb 0 (length buf))
          (λ _.
            if_cases (KeptWith q s) (ltb 0 sent) (λ _. refl)
              (λ _. bind-KeptWith q s (object_of f s) _ (λ p e.
                let apart : q ≢ p = λ h'. ground (arith, v.flagged f p (object_of-privp f p e)) in
                send_if-Kept accepted f p (length buf) (stage memlock p buf s) (
                  if_cases (Kept q s) memlock (λ _. refl)
                    (λ _.
                      if_cases (Kept q s) (leb (length buf) cache_size) (λ _. ground arith)
                        (λ _. tt))))))
          (λ _. tt))
  ]

finish-Kept :
    (q : ℕ) (slot : WsaOverlapped) (p : ℕ) (s : Net Port)
    → ((finish_object slot p s).poll.objects q).tx_cache ≡ (s.poll.objects q).tx_cache
unfolding finish_object release delete_object
finish-Kept q tx_send p s = elim (Option-cases (s.poll.objects p).tx_filp) [
  | inl e ↦ rw (e) (ground arith)
  | inr (f, e) ↦ rw (e) (ground arith)
]
finish-Kept q tx_recv p s = elim (Option-cases (s.poll.objects p).tx_filp) [
  | inl e ↦ rw (e) (ground arith)
  | inr (f, e) ↦ rw (e) (ground arith)
]

handle_each-Kept :
    (q : ℕ) (es : List (WsaOverlapped × ℕ)) (s r : Net Port)
    → (s.poll.objects q).tx_cache ≡ (r.poll.objects q).tx_cache
    → Kept q r (handle_each es s)
unfolding handle_each handle_overlapped
handle_each-Kept q [] s r e = e
handle_each-Kept q ((slot, p) ∷ es) s r e =
    if_cases (λ m. Kept q r (m >>= λ t. handle_each es t)) (s.poll.alive p)
      (λ _.
        handle_each-Kept q es (finish_object slot p (reported slot p s)) r
          (finish-Kept q slot p (reported slot p s) ∙ e))
      (λ _. tt)

polling-Kept :
    (q : ℕ) (es : List (WsaOverlapped × ℕ)) (s : Net Port)
    → Kept q s (tx_completion_port_polling es s)
unfolding tx_completion_port_polling
polling-Kept q es s =
    let k = handle_each-Kept q es s s refl in
    bind-Kept q s (handle_each es s) _ (λ t e. subst (Kept q s) e k)

pub Step-Kept :
    (q : ℕ) (s u : Net Port)
    → Inv s.poll s.filps
    → 0 < (s.poll.in_flight q).sends
    → (s.poll.in_flight q).accepting ≡ false
    → Step s u
    → (u.poll.objects q).tx_cache ≡ (s.poll.objects q).tx_cache
Step-Kept q s _ v h b (attach f p t free i o e) =
    subst (Kept q s) e (attach-Kept q s p f (λ h'. ground (arith, v.landed p free)))
Step-Kept q s _ v h b (detach f t e) = subst (Kept q s) e (detach-Kept q s f)
Step-Kept q s _ v h b (pollin accepted newfd f t a e) =
    subst (Kept q s) e (pollin-Kept q s accepted newfd f)
Step-Kept q s _ v h b (pollout f t a e) = subst (Kept q s) e (pollout-Kept q s f)
Step-Kept q s _ v h b (sendout memlock sent accepted f buf r t a n e) =
    subst (KeptWith q s) e (sendout-Kept q s memlock sent accepted f buf v h)
Step-Kept q s _ v h b (connect how f r t a e) = subst (KeptWith q s) e (connect-Kept q s how f)
Step-Kept q s _ v h b (accept f r t a e) = subst (KeptWith q s) e (accept-Kept q s f)
Step-Kept q s _ v h b (poll es t fly e) = subst (Kept q s) e (polling-Kept q es s)
Step-Kept q s _ v h b (acceptex_writes p addresses r c) = ground (arith, b, c)
Step-Kept q s _ v h b (elsewhere t p same) = ap (λ x. (x.objects q).tx_cache) p
Step-Kept q s _ v h b (renew f fd e) = refl
