-- ===== src/Pipling/Ending.antt =====
-- That `tx_pipling_t::pipling` (netcat.cpp) returns.
use libtx.Common.{
  ℕ, zero, suc, ◌+◌, ◌-◌, ◌*◌, ◌≤◌, ◌<◌, ◌≡◌, ◌≢◌, refl, ap, Bool, true, false, not, ◌||◌, ◌==◌,
  ltb, Option, none, some, List, [], ◌∷◌, ◌++◌, take, length, drop, length-drop, if_cases,
  Bool-cases, inl, inr, arith, ==_refl,
}
use libtx.Common.Int.{ℤ, pos, negsuc}
use libtx.Aiocb.{Net, PollOps, flags_at, generic_active_in, generic_active_out, tx_aincb_update}
use libtx.Epoll.Count.{bit}
use libtx.Pipling.{
  Received, bytes, refused, Pipe, Piped, finished, waiting, broken, aborted, out_of_fuel, PipeTurn,
  go_on, ends, wait_for, advance, refuse, fill, filed, written, file_done, write_done, drain,
  then_drain, pipe_turn, pipling,
}
use libtx.Pipling.Conserved.{Sends, Whole, ConservedTurn, pipe_turn-Whole}

abbrev supply : List Received → ℕ
supply [] = 0
supply (refused again ∷ rs) = 4 + supply rs
supply (bytes bs ∷ rs) = 4 + 4 * length bs + supply rs

abbrev writable_bit : {P : Type 0} → Option ℕ → Net P → ℕ
writable_bit none s = 0
writable_bit (some t) s = bit (flags_at s t).writable

-- More than the rounds that are left, unless more arrives.
unfoldable pub rounds : {P : Type 0} → (f : ℕ) (t : Option ℕ) → Pipe P → ℕ
rounds f t s =
    4 * (length s.buf - s.off)
    + supply s.arriving
    + 2 * writable_bit t s.net
    + bit (flags_at s.net f).readable

-- A turn that goes on has less than `m` rounds left.
abbrev Within : {P : Type 0} → (f : ℕ) (t : Option ℕ) → ℕ → PipeTurn P → Type 0
Within f t m (go_on s) = rounds f t s < m
Within f t m (ends out_of_fuel) = ⊥
Within f t m (ends _) = Unit

bit_le : (b : Bool) → bit b ≤ 1
bit_le true = ground arith
bit_le false = ground arith

writable_bit_le : {P : Type 0} (t : Option ℕ) (s : Net P) → writable_bit t s ≤ 1
writable_bit_le none s = ground arith
writable_bit_le (some t) s = bit_le (flags_at s t).writable

module _ {P : Type 0} (f : ℕ) (t : Option ℕ) (m : ℕ) where
  wait_for-Within : (r : Option (Net P)) (s : Pipe P) → Within f t m (wait_for r s)
  wait_for-Within none s = tt
  wait_for-Within (some net) s = tt

  -- Bytes that are passed on pay for what a write may do to the flags.
  advance-Within :
      (n : ℕ) (net : Net P) (out : List ℕ) (s : Pipe P)
      → 0 < n
      → n ≤ length s.buf - s.off
      → 4 * (length s.buf - s.off) + supply s.arriving ≤ m
      → rounds f t (advance n (record s { net = net; out = out })) < m
  unfolding rounds
  advance-Within n net out s h k l =
      let a = bit_le (flags_at net f).readable in
      let b = writable_bit_le t net in
      let e : length s.buf - (s.off + n) ≡ (length s.buf - s.off) - n = omega arith in omega arith

  filed-Within :
      (xs : List ℕ) (o : Option ℕ × Net P) (s : Pipe P)
      → ((n : ℕ) → o.0 ≡ some n → (0 < n) × (n ≤ length s.buf - s.off))
      → 4 * (length s.buf - s.off) + supply s.arriving ≤ m
      → Within f t m (filed (file_done xs o s))
  filed-Within xs (none, net) s h l = tt
  filed-Within xs (some n, net) s h l =
      let p = h n refl in advance-Within n net (s.out ++ take n xs) s p.0 p.1 l

module _ {P : Type 0} (f t m : ℕ) where
  written-Within :
      (xs : List ℕ) (o : Option (ℤ × Net P)) (s : Pipe P)
      → ((n : ℕ) (net : Net P) → o ≡ some (pos n, net) → (0 < n) × (n ≤ length s.buf - s.off))
      → 4 * (length s.buf - s.off) + supply s.arriving + 2 ≤ m
      → Within f (some t) m (written t (write_done xs o s))
  unfolding rounds
  written-Within xs none s h l = tt
  written-Within xs (some (pos n, net)) s h l =
      let p = h n net refl in
      advance-Within f (some t) m n net (s.out ++ take n xs) s p.0 p.1 (omega arith)
  written-Within xs (some (negsuc n, net)) s h l = elim (Bool-cases (flags_at net t).writable) [
    | inl e ↦ rw (e) tt
    | inr e ↦ rw (e) (let a = bit_le (flags_at net f).readable in omega (arith, a, ap bit e))
  ]

  refused-readable : (s : Net P) → (flags_at (tx_aincb_update f true true s) f).readable ≡ false
  unfolding tx_aincb_update
  refused-readable s = ground (arith, ==_refl f)

  other-readable :
      (s : Net P) → (flags_at (tx_aincb_update f true false s) f).readable ≡ (flags_at s f).readable
  unfolding tx_aincb_update
  other-readable s = refl

  refused-writable :
      (t : Option ℕ) (s : Net P) → writable_bit t (tx_aincb_update f true true s) ≡ writable_bit t s
  unfolding tx_aincb_update
  refused-writable none s = refl
  refused-writable (some t) s = ground arith

  refuse-Within :
      (t : Option ℕ) (again : Bool) (rest : List Received) (s : Pipe P)
      → (flags_at s.net f).readable ≡ true
      → supply rest + 2 * writable_bit t s.net + 1 ≤ m
      → Within f t m (refuse f again rest s)
  unfolding rounds
  refuse-Within t false rest s r l = rw (other-readable s.net, r) tt
  refuse-Within t true rest s r l =
      let a = refused-readable s.net in
      let b = refused-writable t s.net in rw (a) (omega (arith, b, l, ap bit a))

  fill-Within :
      (t : Option ℕ) (rs : List Received) (s : Pipe P)
      → (flags_at s.net f).readable ≡ true
      → supply rs + 2 * writable_bit t s.net + 1 ≤ m
      → Within f t m (fill f rs s)
  unfolding fill rounds
  fill-Within t [] s r l = refuse-Within t true [] s r l
  fill-Within t (refused again ∷ rest) s r l = refuse-Within t again rest s r (omega arith)
  fill-Within t (bytes bs ∷ rest) s r l =
      let a = bit_le (flags_at s.net f).readable in omega (arith, a, l)

module _ {P : Type 0} (ops : PollOps P) (write : ℕ → List ℕ → Net P → Option (ℤ × Net P))
    (write_file : List ℕ → Net P → Option ℕ × Net P) (promise : Sends write write_file) where
  drain-Within :
      (f : ℕ) (t sk : Option ℕ) (m : ℕ) (s : Pipe P)
      → rounds f t s ≤ m
      → (ltb s.off (length s.buf) ≡ false → rounds f t s < m)
      → Within f t m (drain ops write write_file t sk s)
  unfolding drain rounds
  drain-Within f none sk m s l idle =
      if_cases (Within f none m) (ltb s.off (length s.buf))
        (λ h.
          filed-Within f none m (drop s.off s.buf) (write_file (drop s.off s.buf) s.net) s
            (λ n e.
              ground (arith, promise.files n (drop s.off s.buf) s.net, length-drop s.off s.buf))
            (omega (arith, l)))
        (λ h. idle h)
  drain-Within f (some t) sk m s l idle =
      if_cases (Within f (some t) m) (ltb s.off (length s.buf))
        (λ h.
          if_cases (Within f (some t) m) (flags_at s.net t).writable
            (λ w.
              written-Within f t m (drop s.off s.buf) (write t (drop s.off s.buf) s.net) s
                (λ n u e.
                  ground
                    (arith, promise.sends t n (drop s.off s.buf) s.net u, length-drop s.off s.buf))
                (omega (arith, l, ap bit w)))
            (λ w. wait_for-Within f (some t) m (generic_active_out ops t sk s.net) s))
        (λ h. idle h)

  then_drain-Within :
      (f : ℕ) (t sk : Option ℕ) (m : ℕ) (r : PipeTurn P)
      → Within f t m r
      → Within f t m (then_drain ops write write_file t sk r)
  then_drain-Within f t sk m (go_on s) w = drain-Within f t sk m s (omega (arith, w)) (λ _. w)
  then_drain-Within f t sk m (ends r) w = w

  pipe_turn-Within :
      (f : ℕ) (t sk : Option ℕ) (m : ℕ) (s : Pipe P)
      → Whole s
      → rounds f t s ≤ m
      → Within f t m (pipe_turn ops write write_file f t sk s)
  unfolding pipe_turn rounds
  pipe_turn-Within f t sk m s v l =
      if_cases (Within f t m) (s.off == length s.buf)
        (λ e.
          if_cases (Within f t m) (flags_at s.net f).readable
            (λ r.
              then_drain-Within f t sk m (fill f s.arriving s)
                (fill-Within f 0 m t s.arriving s r (omega (arith, l, ap bit r))))
            (λ _. wait_for-Within f t m (generic_active_in ops f sk s.net) s))
        (λ e. drain-Within f t sk m s l (λ h. absurd (ground (arith, e, h, v.inside))))

  -- If each write takes some of what it is given and no more, and the buffer is in order at the call,
  -- `pipling` returns after a number of rounds that what is to arrive and what the buffer holds bound.
  pub pipling-returns :
      (fuel f : ℕ) (t sk : Option ℕ) (s : Pipe P)
      → Whole s
      → rounds f t s < fuel
      → pipling ops write write_file fuel f t sk s ≢ out_of_fuel
  unfolding pipling
  pipling-returns zero f t sk s v l = absurd (ground (arith, l))
  pipling-returns (suc n) f t sk s v l =
      if_cases (λ r. r ≢ out_of_fuel) (not s.eof || ltb s.off (length s.buf))
        (λ _.
          (elim (pipe_turn ops write write_file f t sk s)
              as (λ r.
                ConservedTurn r
                → Within f t n r
                → elim r as (λ _. Piped P) [
                  | go_on u ↦ pipling ops write write_file n f t sk u
                  | ends q ↦ q
                ]
                  ≢ out_of_fuel) [
                    | go_on u ↦ λ w h. pipling-returns n f t sk u w h
                    | ends q ↦ λ w h. ended q h
                  ])
            (pipe_turn-Whole ops write write_file promise f t sk s v)
            (pipe_turn-Within f t sk n s v (omega (arith, l))))
        (λ e. λ h. cc)
    where
      ended : (q : Piped P) → Within f t n (ends q) → q ≢ out_of_fuel
      ended (finished u) h e = cc
      ended (waiting u) h e = cc
      ended (broken u) h e = cc
      ended aborted h e = cc
      ended out_of_fuel h e = h
