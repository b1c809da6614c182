-- ===== src/Pipling/Conserved.antt =====
-- What `tx_pipling_t::pipling` (netcat.cpp) has received, and what it has passed on.
use libtx.Common.{
  ℕ, zero, suc, ◌-◌, ◌≤◌, ◌<◌, ◌≡◌, refl, sym, ap, ◌∙◌, Bool, true, not, ◌||◌, ◌==◌, ltb, Option,
  none, some, List, [], ◌∷◌, ◌++◌, length, take, drop, take-append-drop, drop-drop, drop-length,
  length-drop, if_cases, arith,
}
use mathlib.Core.List.{append_assoc, append-nil}
use libtx.Common.Int.{ℤ, pos, negsuc}
use libtx.Aiocb.{Net, PollOps, flags_at, generic_active_in, generic_active_out, tx_aincb_update}
use libtx.Pipling.{
  Received, bytes, refused, Pipe, Piped, finished, waiting, broken, aborted, out_of_fuel, PipeTurn,
  go_on, ends, wait_for, advance, refuse, fill, filed, written, file_done, write_done, drain,
  then_drain, pipe_turn, pipling,
}

-- Every byte that has come has been passed on, in order, or is in the buffer and to be passed on next.
pub record Whole {P : Type 0} (s : Pipe P) : Type 0 where
  pub conserved : s.out ++ drop s.off s.buf ≡ s.came
  pub inside : s.off ≤ length s.buf

-- So it is wherever the function returns, and where its loop ends nothing is left.
abbrev pub Conserved : {P : Type 0} → Piped P → Type 0
Conserved (finished s) = Whole s × (s.out ≡ s.came) × (s.eof ≡ true)
Conserved (waiting s) = Whole s
Conserved (broken s) = Whole s
Conserved aborted = Unit
Conserved out_of_fuel = Unit

abbrev pub ConservedTurn : {P : Type 0} → PipeTurn P → Type 0
ConservedTurn (go_on s) = Whole s
ConservedTurn (ends r) = Conserved r

module _ {P : Type 0} where
  advance-Whole :
      (n : ℕ) (net : Net P) (s : Pipe P)
      → n ≤ length s.buf - s.off
      → Whole s
      → Whole (advance n (record s { net = net; out = s.out ++ take n (drop s.off s.buf) }))
  advance-Whole n net s h w = record {
    conserved =
        ap (λ r. (s.out ++ take n (drop s.off s.buf)) ++ r) (sym (drop-drop s.off n s.buf))
        ∙ append_assoc s.out (take n (drop s.off s.buf)) (drop n (drop s.off s.buf))
        ∙ ap (λ r. s.out ++ r) (take-append-drop n (drop s.off s.buf))
        ∙ w.conserved;
    inside = ground (arith, w.inside);
  }

  wait_for-Whole : (m : Option (Net P)) (s : Pipe P) → Whole s → ConservedTurn (wait_for m s)
  wait_for-Whole none s w = tt
  wait_for-Whole (some net) s w = record { conserved = w.conserved; inside = w.inside }

  -- All that the buffer held has been passed on.
  all_out : (s : Pipe P) → Whole s → s.off ≡ length s.buf → s.out ≡ s.came
  all_out s w e =
      sym (append-nil s.out)
      ∙ ap (λ r. s.out ++ r) (sym (ap (λ n. drop n s.buf) e ∙ drop-length s.buf))
      ∙ w.conserved

  refuse-Whole :
      (f : ℕ) (again : Bool) (rest : List Received) (s : Pipe P)
      → Whole s
      → s.off ≡ length s.buf
      → ConservedTurn (refuse f again rest s)
  refuse-Whole f again rest s w e =
      if_cases ConservedTurn (flags_at (tx_aincb_update f true again s.net) f).readable
        (λ _. record { conserved = w.conserved; inside = w.inside })
        (λ _. record { conserved = append-nil s.out ∙ all_out s w e; inside = ground arith })

  fill-Whole :
      (f : ℕ) (rs : List Received) (s : Pipe P)
      → Whole s
      → s.off ≡ length s.buf
      → ConservedTurn (fill f rs s)
  unfolding fill
  fill-Whole f [] s w e = refuse-Whole f true [] s w e
  fill-Whole f (refused again ∷ rest) s w e = refuse-Whole f again rest s w e
  fill-Whole f (bytes bs ∷ rest) s w e = record {
    conserved = ap (λ r. r ++ bs) (all_out s w e);
    inside = ground arith;
  }

  filed-Whole :
      (o : Option ℕ × Net P) (s : Pipe P)
      → ((n : ℕ) → o.0 ≡ some n → n ≤ length s.buf - s.off)
      → Whole s
      → ConservedTurn (filed (file_done (drop s.off s.buf) o s))
  filed-Whole (none, net) s h w = record { conserved = w.conserved; inside = w.inside }
  filed-Whole (some n, net) s h w = advance-Whole n net s (h n refl) w

  written-Whole :
      (t : ℕ) (o : Option (ℤ × Net P)) (s : Pipe P)
      → ((n : ℕ) (net : Net P) → o ≡ some (pos n, net) → n ≤ length s.buf - s.off)
      → Whole s
      → ConservedTurn (written t (write_done (drop s.off s.buf) o s))
  written-Whole t none s h w = tt
  written-Whole t (some (pos n, net)) s h w = advance-Whole n net s (h n net refl) w
  written-Whole t (some (negsuc n, net)) s h w =
      if_cases ConservedTurn (flags_at net t).writable
        (λ _. record { conserved = w.conserved; inside = w.inside })
        (λ _. record { conserved = w.conserved; inside = w.inside })

-- What a write and WriteFile promise: they take some of the bytes, and not more than there are.
pub record Sends {P : Type 0} (write : ℕ → List ℕ → Net P → Option (ℤ × Net P))
    (write_file : List ℕ → Net P → Option ℕ × Net P) : Type 0 where
  pub sends :
      (t n : ℕ) (xs : List ℕ) (s u : Net P)
      → 0 < length xs
      → write t xs s ≡ some (pos n, u)
      → (0 < n) × (n ≤ length xs)
  pub files :
      (n : ℕ) (xs : List ℕ) (s : Net P)
      → 0 < length xs
      → (write_file xs s).0 ≡ some n
      → (0 < n) × (n ≤ length xs)

module _ {P : Type 0} (ops : PollOps P) (write : ℕ → List ℕ → Net P → Option (ℤ × Net P))
    (write_file : List ℕ → Net P → Option ℕ × Net P) (promise : Sends write write_file) where
  drain-Whole :
      (t sk : Option ℕ) (s : Pipe P) → Whole s → ConservedTurn (drain ops write write_file t sk s)
  unfolding drain
  drain-Whole none sk s w =
      if_cases ConservedTurn (ltb s.off (length s.buf))
        (λ h.
          filed-Whole (write_file (drop s.off s.buf) s.net) s
            (λ n e.
              ground (arith, promise.files n (drop s.off s.buf) s.net, length-drop s.off s.buf))
            w)
        (λ _. w)
  drain-Whole (some t) sk s w =
      if_cases ConservedTurn (ltb s.off (length s.buf))
        (λ h.
          if_cases ConservedTurn (flags_at s.net t).writable
            (λ _.
              written-Whole t (write t (drop s.off s.buf) s.net) s
                (λ n u e.
                  ground
                    (arith, promise.sends t n (drop s.off s.buf) s.net u, length-drop s.off s.buf))
                w)
            (λ _. wait_for-Whole (generic_active_out ops t sk s.net) s w))
        (λ _. w)

  then_drain-Whole :
      (t sk : Option ℕ) (r : PipeTurn P)
      → ConservedTurn r
      → ConservedTurn (then_drain ops write write_file t sk r)
  then_drain-Whole t sk (go_on s) w = drain-Whole t sk s w
  then_drain-Whole t sk (ends r) w = w

  pub pipe_turn-Whole :
      (f : ℕ) (t sk : Option ℕ) (s : Pipe P)
      → Whole s
      → ConservedTurn (pipe_turn ops write write_file f t sk s)
  unfolding pipe_turn
  pipe_turn-Whole f t sk s w =
      if_cases ConservedTurn (s.off == length s.buf)
        (λ e.
          if_cases ConservedTurn (flags_at s.net f).readable
            (λ _.
              then_drain-Whole t sk (fill f s.arriving s)
                (fill-Whole f s.arriving s w (ground (arith, e))))
            (λ _. wait_for-Whole (generic_active_in ops f sk s.net) s w))
        (λ _. drain-Whole t sk s w)

  -- If each write takes some of what it is given and no more, and at the call what has been passed on,
  -- with what the buffer still holds, is what has come, then so it is at each return: each byte that
  -- `pipling` receives it passes on once and in order. When the loop ends at the end of the file nothing
  -- is held.
  pub pipling-Conserved :
      (fuel f : ℕ) (t sk : Option ℕ) (s : Pipe P)
      → Whole s
      → Conserved (pipling ops write write_file fuel f t sk s)
  unfolding pipling
  pipling-Conserved zero f t sk s w = tt
  pipling-Conserved (suc n) f t sk s w =
      if_cases Conserved (not s.eof || ltb s.off (length s.buf))
        (λ _.
          (elim (pipe_turn ops write write_file f t sk s)
              as (λ r.
                ConservedTurn r
                → Conserved (elim r as (λ _. Piped P) [
                  | go_on u ↦ pipling ops write write_file n f t sk u
                  | ends q ↦ q
                ])) [ go_on u ↦ pipling-Conserved n f t sk u | ends q ↦ λ v. v ])
            (pipe_turn-Whole f t sk s w))
        (λ e. (w, all_out s w (ground (arith, e, w.inside)), ground (arith, e)))
