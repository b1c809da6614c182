-- ===== src/Loop/Activate.antt =====
-- What activation, removal and wake-up of tasks (tx_loop.cpp) do to the queues.
use libtx.Common.{
  ℕ, ◌≡◌, refl, ap, true, false, some, List, [], ◌∷◌, arith, ◌==◌, Bool-cases, inl, inr, ◌∙◌,
}
use libtx.Loop.{
  TaskFlags, TxLoop, Ref, task, phony, tailer, insert_before_tailer, flags_of, unlink, drop_task,
  tx_task_drop, enqueue, tx_task_active, wakeup_one, wakeup_each, tx_task_wakeup,
}
use libtx.Loop.Queues.{has, Distinct, ends_tailer, has-insert, ends_tailer-insert}
use libtx.Loop.Invariant.{InQueues, Inv}
use libtx.Loop.Phony.{remove-absent}

-- A second activation of a task changes nothing, not even the reason.
pub active-active :
    (p reason reason' : ℕ) (s : TxLoop)
    → tx_task_active (some p) reason' (tx_task_active (some p) reason s)
      ≡ tx_task_active (some p) reason s
unfolding tx_task_active
active-active p reason reason' s = ground arith

-- The tasks of a wait queue, put in front of the tailer one after the other.
unfoldable pub insert_all : List Ref → List Ref → List Ref
insert_all [] q = q
insert_all (r ∷ rs) q = insert_all rs (insert_before_tailer r q)

-- Tasks that wait to be woken: each is in no queue of the loop, not idle and not busy.
abbrev Sleeping : List Ref → TxLoop → Type 0
Sleeping [] s = Unit {0}
Sleeping (task p ∷ rs) s =
    ((flags_of s p).busy ≡ false) × (has (task p) s.tx_taskq ≡ false) × Sleeping rs s
Sleeping (phony ∷ rs) s = ⊥
Sleeping (tailer ∷ rs) s = ⊥

-- What waking one such task does to the loop's queue.
wakeup_one-queue :
    (reason p : ℕ) (s : TxLoop)
    → s.tx_stop ≡ false
    → (flags_of s p).busy ≡ false
    → has (task p) s.tx_taskq ≡ false
    → (wakeup_one reason (task p) s).tx_taskq ≡ insert_before_tailer (task p) s.tx_taskq
unfolding wakeup_one drop_task unlink enqueue tx_task_active tx_task_drop
wakeup_one-queue reason p s run idle out = ground (arith, remove-absent (task p) s.tx_taskq out)

wakeup_one-flags :
    (reason p q : ℕ) (s : TxLoop)
    → (q == p) ≡ false
    → flags_of (wakeup_one reason (task p) s) q ≡ flags_of s q
unfolding wakeup_one drop_task unlink enqueue tx_task_active tx_task_drop
wakeup_one-flags reason p q s ne = ground arith

wakeup_one-busy :
    (reason p : ℕ) (s : TxLoop)
    → s.tx_stop ≡ false
    → (flags_of (wakeup_one reason (task p) s) p).busy ≡ true
unfolding wakeup_one drop_task unlink enqueue tx_task_active tx_task_drop
wakeup_one-busy reason p s run = ground arith

wakeup_one-stop : (reason p : ℕ) (s : TxLoop) → (wakeup_one reason (task p) s).tx_stop ≡ s.tx_stop
unfolding wakeup_one drop_task unlink enqueue tx_task_active tx_task_drop
wakeup_one-stop reason p s = ground arith

wakeup_one-ends :
    (reason p : ℕ) (s : TxLoop)
    → s.tx_stop ≡ false
    → (flags_of s p).busy ≡ false
    → has (task p) s.tx_taskq ≡ false
    → ends_tailer s.tx_taskq ≡ true
    → ends_tailer (wakeup_one reason (task p) s).tx_taskq ≡ true
wakeup_one-ends reason p s run idle out e =
    rw (wakeup_one-queue reason p s run idle out) (ends_tailer-insert p s.tx_taskq e)

-- Waking one task leaves the others asleep.
Sleeping-wakeup :
    (reason p : ℕ) (rs : List Ref) (s : TxLoop)
    → s.tx_stop ≡ false
    → (flags_of s p).busy ≡ false
    → has (task p) s.tx_taskq ≡ false
    → ends_tailer s.tx_taskq ≡ true
    → has (task p) rs ≡ false
    → Sleeping rs s
    → Sleeping rs (wakeup_one reason (task p) s)
Sleeping-wakeup reason p [] s run idle out e new sl = tt
Sleeping-wakeup reason p (task q ∷ rs) s run idle out e new sl =
    let other : (q == p) ≡ false = ground arith in
    (
      ap (λ (f : TaskFlags). f.busy) (wakeup_one-flags reason p q s other) ∙ sl.0,
      rw (wakeup_one-queue reason p s run idle out)
          (ground (arith, has-insert (task p) (task q) s.tx_taskq e)),
      Sleeping-wakeup reason p rs s run idle out e (ground arith) sl.2,
    )
Sleeping-wakeup reason p (phony ∷ rs) s run idle out e new sl = absurd sl
Sleeping-wakeup reason p (tailer ∷ rs) s run idle out e new sl = absurd sl

wakeup_each-flags :
    (reason q : ℕ) (rs : List Ref) (s : TxLoop)
    → has (task q) rs ≡ false
    → flags_of (wakeup_each reason rs s) q ≡ flags_of s q
unfolding wakeup_each wakeup_one
wakeup_each-flags reason q [] s new = refl
wakeup_each-flags reason q (task p ∷ rs) s new =
    wakeup_each-flags reason q rs (wakeup_one reason (task p) s) (ground arith)
    ∙ wakeup_one-flags reason p q s (ground arith)
wakeup_each-flags reason q (phony ∷ rs) s new = wakeup_each-flags reason q rs s new
wakeup_each-flags reason q (tailer ∷ rs) s new = wakeup_each-flags reason q rs s new

pub record Woken (rs : List Ref) (s t : TxLoop) : Type 0 where
  pub queue : t.tx_taskq ≡ insert_all rs s.tx_taskq
  pub busy : (p : ℕ) → has (task p) rs ≡ true → (flags_of t p).busy ≡ true

wakeup_each-Woken :
    (reason : ℕ) (rs : List Ref) (s : TxLoop)
    → s.tx_stop ≡ false
    → ends_tailer s.tx_taskq ≡ true
    → Distinct rs
    → Sleeping rs s
    → Woken rs s (wakeup_each reason rs s)
unfolding wakeup_each insert_all
wakeup_each-Woken reason [] s run e d sl = record { queue = refl; busy = λ p h. cc }
wakeup_each-Woken reason (task p ∷ rs) s run e d sl =
    let w =
      wakeup_each-Woken reason rs t (wakeup_one-stop reason p s ∙ run)
        (wakeup_one-ends reason p s run sl.0 sl.1 e) d.1
        (Sleeping-wakeup reason p rs s run sl.0 sl.1 e d.0 sl.2) in
    record {
      queue = w.queue ∙ ap (insert_all rs) (wakeup_one-queue reason p s run sl.0 sl.1);
      busy = λ q h. woken q h w.busy;
    }
  where
    t : TxLoop
    t = wakeup_one reason (task p) s

    woken :
        (q : ℕ)
        → has (task q) (task p ∷ rs) ≡ true
        → ((q : ℕ) → has (task q) rs ≡ true → (flags_of (wakeup_each reason rs t) q).busy ≡ true)
        → (flags_of (wakeup_each reason rs t) q).busy ≡ true
    woken q h later = elim (Bool-cases (has (task q) rs)) [
      | inl in_rest ↦ later q in_rest
      | inr not_in ↦
          let same : q ≡ p = ground arith in
          ap (λ (f : TaskFlags). f.busy) (wakeup_each-flags reason q rs t not_in)
          ∙ ap (λ k. (flags_of t k).busy) same
          ∙ wakeup_one-busy reason p s run
    ]
wakeup_each-Woken reason (phony ∷ rs) s run e d sl = absurd sl
wakeup_each-Woken reason (tailer ∷ rs) s run e d sl = absurd sl

-- The tasks of a wait queue are asleep.
waiting-Sleeping :
    (s : TxLoop) (q : ℕ) (rs : List Ref)
    → InQueues s
    → ((p : ℕ) → has (task p) rs ≡ true → has (task p) (s.waitq q) ≡ true)
    → has phony rs ≡ false
    → has tailer rs ≡ false
    → Sleeping rs s
waiting-Sleeping s q [] v inside np nt = tt
waiting-Sleeping s q (task p ∷ rs) v inside np nt =
    let out = (v.waiting q p (inside p (ground arith))).1 in
    (
      ground (arith, v.busy_queued p),
      out,
      waiting-Sleeping s q rs v (λ a h. inside a (ground arith)) np nt,
    )
waiting-Sleeping s q (phony ∷ rs) v inside np nt = cc
waiting-Sleeping s q (tailer ∷ rs) v inside np nt = cc

-- On a loop that is not stopped, `tx_task_wakeup` empties the wait queue: its tasks go in front of
-- the tailer in the order in which they stood, and each of them is busy.
pub wakeup-Woken :
    (q reason : ℕ) (s : TxLoop)
    → Inv s
    → s.tx_stop ≡ false
    → Woken (s.waitq q) s (tx_task_wakeup q reason s) × ((tx_task_wakeup q reason s).waitq q ≡ [])
unfolding tx_task_wakeup
wakeup-Woken q reason s v run =
    let w = wakeup_each-Woken reason (s.waitq q) s run v.queues.ends (v.queues.once_waiting q) (
      waiting-Sleeping s q (s.waitq q) v.queues (λ p h. h) (v.queues.real q).0
        (v.queues.real q).1) in
    (record { queue = w.queue; busy = w.busy }, ground arith)
