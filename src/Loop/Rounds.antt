-- ===== src/Loop/Rounds.antt =====
-- The rounds of `tx_loop_main` (tx_loop.cpp) under the invariant.
use libtx.Common.{
  ℕ, ◌%◌, ◌≡◌, ◌≢◌, ap, true, false, List, ◌∷◌, arith, ◌==◌, if◌then◌else◌, update, Bool-cases, inl,
  inr, ◌∙◌,
}
use libtx.Common.Int.{ℤ, pos, dec, dec_parts}
use libtx.Loop.{TxTask, TxLoop, Ref, task, phony, list_remove, insert_before_tailer, shift_left}
use libtx.Loop.Main.{phony_round, dequeue}
use libtx.Loop.Queues.{
  has, has-after, bit, Distinct, ends_tailer, after_phony, has-insert, Distinct-insert,
  any_busy-update, count_busy-update,
}
use libtx.Loop.Invariant.{Activity, Inv}
use libtx.Loop.Phony.{
  remove-head, any_busy-insert_phony, count_busy-insert_phony, after-insert_phony, count_busy-zero,
  ends_tailer-insert_phony,
}

shift_left_keeps : (b : ℕ) → b % 2 ≡ 1 → shift_left b % 4 ≢ 0
unfolding shift_left
shift_left_keeps b h = omega arith

-- When the phony task comes round, what bit 0 says goes over to bit 1.
round-Activity :
    {m : ℕ → TxTask} {rest : List Ref} {b : ℕ} {a : ℤ}
    → ends_tailer rest ≡ true
    → has phony rest ≡ false
    → Activity m (phony ∷ rest) b a
    → Activity m (insert_before_tailer phony rest) (shift_left b) (if b % 2 == 1 then a else pos 0)
round-Activity {m} {rest} {b} {a} e h v = record {
  recent = λ k. cc (after-insert_phony m rest e h);
  round = λ k. shift_left_keeps b (v.recent (rw (any_busy-insert_phony m rest) at k));
  counted = elim (Bool-cases (b % 2 == 1)) [
    | inl one ↦ rw one (omega (arith, count_busy-insert_phony m rest, v.counted))
    | inr even ↦ rw even (
        omega (
          arith,
          count_busy-insert_phony m rest,
          count_busy-zero m rest (ground (arith, v.recent)),
        ))
  ];
}

pub phony_round-Inv :
    (s : TxLoop) (rest : List Ref) → s.tx_taskq ≡ phony ∷ rest → Inv s → Inv (phony_round s)
unfolding phony_round
phony_round-Inv s rest q v = rw same (record {
  queues = record {
    ends = ends_tailer-insert_phony rest e;
    once = Distinct-insert phony rest e o.1 o.0;
    once_waiting = v.queues.once_waiting;
    real = v.queues.real;
    queued = λ p h. v.queues.queued p (rw q (ground (arith, has-insert phony (task p) rest e)));
    waiting = λ r p h. (
      (v.queues.waiting r p h).0,
      has-insert phony (task p) rest e ∙ (rw q at (v.queues.waiting r p h).1),
    );
    one_wait = v.queues.one_wait;
    busy_queued = λ p h. has-insert phony (task p) rest e ∙ (rw q at (v.queues.busy_queued p h));
  };
  activity = round-Activity e o.0 (rw q at v.activity);
})
  where
    o : Distinct (phony ∷ rest)
    o = rw q at v.queues.once

    e : ends_tailer rest ≡ true
    e = rw q at v.queues.ends

    same : list_remove phony s.tx_taskq ≡ rest
    same = ap (list_remove phony) q ∙ remove-head phony rest o.0

-- A task at the head leaves the queue; if it was busy, it is no longer counted.
head-Activity :
    {m : ℕ → TxTask} {rest : List Ref} {b : ℕ} {a : ℤ} (p : ℕ) (t : TxTask)
    → has (task p) rest ≡ false
    → Activity m (task p ∷ rest) b a
    → Activity (update m p t) rest b (if (m p).tx_flags.busy then dec a else a)
head-Activity {m} {rest} {b} {a} p t h v = record {
  recent = λ k.
      v.recent (rw (any_busy-update m p t (after_phony rest) (has-after (task p) rest h)) at k);
  round = λ k. v.round (ground (arith, any_busy-update m p t rest h));
  counted = elim (Bool-cases (m p).tx_flags.busy) [
    | inl e ↦ rw e (omega (arith, dec_parts a, count_busy-update m p t rest h, v.counted, ap bit e))
    | inr e ↦ rw e (omega (arith, count_busy-update m p t rest h, v.counted))
  ];
}

pub dequeue-Inv :
    (p : ℕ) (s : TxLoop) (rest : List Ref) → s.tx_taskq ≡ task p ∷ rest → Inv s → Inv (dequeue p s)
unfolding dequeue
dequeue-Inv p s rest q v = rw same (record {
  queues = record {
    ends = rw q at v.queues.ends;
    once = o.1;
    once_waiting = v.queues.once_waiting;
    real = v.queues.real;
    queued = λ a h. ground (arith, in_rest a h, v.queues.queued a, o.0);
    waiting = λ r a h.
        let w = v.queues.waiting r a h in let n = rw q at w.1 in (ground arith, ground arith);
    one_wait = v.queues.one_wait;
    busy_queued = λ a h. ground (arith, v.queues.busy_queued a, has_q a);
  };
  activity = head-Activity p _ o.0 (rw q at v.activity);
})
  where
    o : Distinct (task p ∷ rest)
    o = rw q at v.queues.once

    same : list_remove (task p) s.tx_taskq ≡ rest
    same = ap (list_remove (task p)) q ∙ remove-head (task p) rest o.0

    has_q : (a : ℕ) → has (task a) s.tx_taskq ≡ has (task a) (task p ∷ rest)
    has_q a = ap (has (task a)) q

    in_rest : (a : ℕ) → has (task a) rest ≡ true → has (task a) s.tx_taskq ≡ true
    in_rest a h = ground (arith, has_q a)
