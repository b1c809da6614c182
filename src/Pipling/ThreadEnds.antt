-- ===== src/Pipling/ThreadEnds.antt =====
-- How the thread `pipling` of netcat.cpp ends.
use libtx.Common.{
  ℕ, zero, suc, ◌+◌, ◌-◌, ◌≤◌, ◌<◌, ◌≡◌, refl, sym, ap, ◌∙◌, true, false, not, ◌||◌, ◌==◌, ltb,
  Option, none, some, List, [], ◌∷◌, ◌++◌, length, take, drop, take-append-drop, drop-drop,
  drop-length, length-drop, if◌then◌else◌, if_cases, arith,
}
use mathlib.Core.List.{append_assoc, append-nil}
use libtx.Pipling.Thread.{
  Thread, ThreadEnd, end_of_file, cut, unfinished, ThreadTurn, next, leaves, filled, p_read, put,
  write_done, write_rest, then_write, thread_turn, thread_pipling, started,
}

-- What has been read is what has been written, and what is in the buffer.
record InOrder {K : Type 0} (s : Thread K) : Type 0 where
  conserved : s.out ++ drop s.off s.buf ≡ s.came
  inside : s.off ≤ length s.buf

abbrev pub supply : List (Option (List ℕ)) → ℕ
supply [] = 0
supply (none ∷ rs) = supply rs
supply (some bs ∷ rs) = 1 + length bs + supply rs

-- The turns that are left: one for each read and one for each byte, and the read of the end.
abbrev pub turns : {K : Type 0} → Thread K → ℕ
turns s = (length s.buf - s.off) + supply s.reads + (if s.eof then 0 else 1)

-- What a turn leads to: in order, and with fewer turns left.
abbrev Fewer : {K : Type 0} → ℕ → ThreadTurn K → Type 0
Fewer m (next s) = InOrder s × (turns s < m)
Fewer m (leaves (end_of_file s)) = ⊥
Fewer m (leaves (cut s)) = InOrder s
Fewer m (leaves unfinished) = ⊥

-- How the thread ends: all that has been read is written at the end of the file, and what has been
-- written is the beginning of it after an error.
abbrev pub EndsInOrder : {K : Type 0} → ThreadEnd K → Type 0
EndsInOrder (end_of_file s) = (s.eof ≡ true) × (s.out ≡ s.came)
EndsInOrder (cut s) = (rest : List ℕ) × (s.out ++ rest ≡ s.came)
EndsInOrder unfinished = ⊥

module _ {K : Type 0} where
  all_out : (s : Thread K) → InOrder s → s.off ≡ length s.buf → s.out ≡ s.came
  all_out s w e =
      sym (append-nil s.out)
      ∙ ap (λ r. s.out ++ r) (sym (ap (λ n. drop n s.buf) e ∙ drop-length s.buf))
      ∙ w.conserved

  filled-InOrder :
      (bs : List ℕ) (rest : List (Option (List ℕ))) (s : Thread K)
      → InOrder s
      → s.off ≡ length s.buf
      → InOrder (filled bs rest s)
  filled-InOrder bs rest s w e = record {
    conserved = ap (λ r. r ++ bs) (all_out s w e);
    inside = ground arith;
  }

  module _ (p_write : List ℕ → K → Option ℕ × K)
      (takes : (n : ℕ) (xs : List ℕ) (k : K)
        → 0 < length xs
        → (p_write xs k).0 ≡ some n
        → (0 < n) × (n ≤ length xs)) where
    put-Fewer :
        (m : ℕ) (o : Option ℕ × K) (s : Thread K)
        → ((n : ℕ) → o.0 ≡ some n → (0 < n) × (n ≤ length s.buf - s.off))
        → InOrder s
        → turns s ≤ m
        → Fewer m (put (write_done (drop s.off s.buf) o s))
    put-Fewer m (none, k) s h w l = record { conserved = w.conserved; inside = w.inside }
    put-Fewer m (some n, k) s h w l =
        let p = h n refl in
        let e : length s.buf - (s.off + n) ≡ (length s.buf - s.off) - n = omega arith in
        (
          record {
            conserved =
                ap (λ r. (s.out ++ take n (drop s.off s.buf)) ++ r) (sym (drop-drop s.off n s.buf))
                ∙ append_assoc s.out (take n (drop s.off s.buf)) (drop n (drop s.off s.buf))
                ∙ ap (λ r. s.out ++ r) (take-append-drop n (drop s.off s.buf))
                ∙ w.conserved;
            inside = ground (arith, w.inside, p.1);
          },
          omega (arith, l, p.0, p.1, e),
        )

    write_rest-Fewer :
        (m : ℕ) (s : Thread K)
        → InOrder s
        → turns s ≤ m
        → (ltb s.off (length s.buf) ≡ false → turns s < m)
        → Fewer m (write_rest p_write s)
    write_rest-Fewer m s w l idle =
        if_cases (Fewer m) (ltb s.off (length s.buf))
          (λ h.
            put-Fewer m (p_write (drop s.off s.buf) s.system) s
              (λ n e. ground (arith, takes n (drop s.off s.buf) s.system, length-drop s.off s.buf))
              w l)
          (λ h. (w, idle h))

    read-Fewer :
        (m : ℕ) (rs : List (Option (List ℕ))) (s : Thread K)
        → InOrder s
        → s.off ≡ length s.buf
        → s.eof ≡ false
        → supply rs + 1 ≤ m
        → Fewer m (then_write p_write (p_read rs s))
    read-Fewer m [] s w e o l = (filled-InOrder [] [] s w e, ground (arith, o, l))
    read-Fewer m (none ∷ rest) s w e o l = record { conserved = w.conserved; inside = w.inside }
    read-Fewer m (some bs ∷ rest) s w e o l =
        let less : turns (filled bs rest s) < m = ground (arith, o, l) in
        write_rest-Fewer m (filled bs rest s) (filled-InOrder bs rest s w e) (omega (arith, less))
          (λ _. less)

    turn-Fewer :
        (m : ℕ) (s : Thread K)
        → InOrder s
        → (not s.eof || ltb s.off (length s.buf)) ≡ true
        → turns s ≤ m
        → Fewer m (thread_turn p_write s)
    turn-Fewer m s w c l =
        if_cases (Fewer m) (s.off == length s.buf)
          (λ e.
            let d : s.off ≡ length s.buf = ground (arith, e) in
            let o : s.eof ≡ false = ground (arith, c, e) in
            read-Fewer m s.reads s w d o (ground (arith, o, l)))
          (λ e. write_rest-Fewer m s w l (λ h. absurd (ground (arith, e, h, w.inside))))

    thread-InOrder :
        (fuel : ℕ) (s : Thread K)
        → InOrder s
        → turns s < fuel
        → EndsInOrder (thread_pipling p_write fuel s)
    unfolding thread_pipling
    thread-InOrder zero s w l = absurd (ground (arith, l))
    thread-InOrder (suc n) s w l =
        if_cases EndsInOrder (not s.eof || ltb s.off (length s.buf))
          (λ c.
            (elim (thread_turn p_write s)
                as (λ r.
                  Fewer n r
                  → EndsInOrder (elim r as (λ _. ThreadEnd K) [
                    | next u ↦ thread_pipling p_write n u
                    | leaves e ↦ e
                  ])) [ next u ↦ λ h. thread-InOrder n u h.0 h.1 | leaves e ↦ λ h. left e h ])
              (turn-Fewer n s w c (omega (arith, l))))
          (λ c.
            let d : s.off ≡ length s.buf = ground (arith, c, w.inside) in
            (ground (arith, c), all_out s w d))
      where
        left : (e : ThreadEnd K) → Fewer n (leaves e) → EndsInOrder e
        left (end_of_file u) h = absurd h
        left (cut u) h = (drop u.off u.buf, h.conserved)
        left unfinished h = absurd h

    -- If each write takes some of what it is given and no more, and there is fuel for as many turns as
    -- there are bytes and reads, and two more, the thread ends: at the end of the file with all that it
    -- has read written, in order, or by an error with the beginning of it written.
    pub thread-relays :
        (fuel : ℕ) (reads : List (Option (List ℕ))) (k : K)
        → supply reads + 1 < fuel
        → EndsInOrder (thread_pipling p_write fuel (started reads k))
    thread-relays fuel reads k l =
        thread-InOrder fuel (started reads k) (record { conserved = refl; inside = ground arith })
          (omega (arith, l))
