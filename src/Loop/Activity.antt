-- ===== src/Loop/Activity.antt =====
-- What a change of one task, and a task put in, mean for the bits and the count of busy tasks.
use libtx.Common.{ℕ, ◌≤◌, ◌≡◌, Bool, true, false, List, arith, update, ap}
use libtx.Common.Int.{ℤ, inc, inc_parts}
use libtx.Loop.{TxTask, Ref, task, insert_before_tailer, or_one}
use libtx.Loop.Queues.{
  bit, is_busy, has, ends_tailer, after_phony, any_busy, has-after, after_phony-insert,
  any_busy-insert, count_busy-insert, any_busy-update, count_busy-update, any_busy-same,
  count_busy-same,
}
use libtx.Loop.Invariant.{Activity}

bit-le : (b : Bool) → bit b ≤ 1
bit-le true = omega arith
bit-le false = omega arith

module _ {m : ℕ → TxTask} {q : List Ref} {b : ℕ} {a : ℤ} (p : ℕ) (t : TxTask) where
  pub update-Activity : has (task p) q ≡ false → Activity m q b a → Activity (update m p t) q b a
  update-Activity d v = record {
    recent = λ h. v.recent (rw (any_busy-update m p t _ (has-after (task p) q d)) at h);
    round = λ h. v.round (rw (any_busy-update m p t _ d) at h);
    counted = omega (arith, count_busy-update m p t q d, v.counted);
  }

  pub same-Activity :
      t.tx_flags.busy ≡ (m p).tx_flags.busy → Activity m q b a → Activity (update m p t) q b a
  same-Activity e v = record {
    recent = λ h. v.recent (rw (any_busy-same m p t _ e) at h);
    round = λ h. v.round (rw (any_busy-same m p t _ e) at h);
    counted = omega (arith, count_busy-same m p t q e, v.counted);
  }

  pub insert-Activity :
      has (task p) q ≡ false
      → Activity m q b a
      → Activity (update m p t) (insert_before_tailer (task p) q) (or_one b) (inc a)
  unfolding or_one
  insert-Activity d v = record {
    recent = λ h. omega arith;
    round = λ h. omega arith;
    counted = omega (
      arith,
      inc_parts a,
      count_busy-insert (update m p t) (task p) q,
      count_busy-update m p t q d,
      v.counted,
      bit-le (is_busy (update m p t) (task p)),
    );
  }

-- A task that is not busy comes into the queue without any bit of the activity.
pub quiet-Activity :
    {m : ℕ → TxTask} {q : List Ref} {b : ℕ} {a : ℤ} (p : ℕ) (t : TxTask)
    → t.tx_flags.busy ≡ false
    → ends_tailer q ≡ true
    → has (task p) q ≡ false
    → Activity m q b a
    → Activity (update m p t) (insert_before_tailer (task p) q) b a
quiet-Activity {m} {q} {b} {a} p t e ends d v = record {
  recent = λ h. u.recent (quiet (after_phony q) (rw (after_phony-insert p q ends) at h));
  round = λ h. u.round (quiet q h);
  counted = omega (arith, count_busy-insert (update m p t) (task p) q, u.counted, ap bit still);
}
  where
    u : Activity (update m p t) q b a
    u = update-Activity p t d v

    still : is_busy (update m p t) (task p) ≡ false
    still = ground arith

    quiet :
        (xs : List Ref)
        → any_busy (update m p t) (insert_before_tailer (task p) xs) ≡ true
        → any_busy (update m p t) xs ≡ true
    quiet xs h = ground (arith, any_busy-insert (update m p t) (task p) xs)
