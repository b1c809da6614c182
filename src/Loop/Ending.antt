-- ===== src/Loop/Ending.antt =====
-- `tx_loop_main` (tx_loop.cpp) as a whole. The tasks' functions act on the loop by its calls only.
use libtx.Common.{
  ℕ, zero, suc, ◌+◌, ◌<◌, ◌≡◌, ◌⊎◌, refl, sym, ap, subst, Bool, true, false, not, ◌||◌, List, [],
  ◌∷◌, arith, if◌then◌else◌, Bool-cases, inl, inr, ◌∙◌,
}
use libtx.Loop.{TxLoop, Ref, task, phony, tailer, list_remove, insert_before_tailer}
use libtx.Loop.Main.{
  Turn, again, leave, crash, phony_round, dequeue, turn, turn_at, after_turn, Run, finished,
  crashed, unfinished, main_loop,
}
use libtx.Loop.Queues.{has, Distinct, ends_tailer, has-remove, has-insert}
use libtx.Loop.Invariant.{Inv}
use libtx.Loop.Phony.{before_phony, remove-head}
use libtx.Loop.Steps.{Calls, Calls-Inv}
use libtx.Loop.Progress.{Calls-Forward}
use libtx.Loop.Rounds.{phony_round-Inv, dequeue-Inv}

-- The loop's state while `tx_loop_main` runs.
pub record Running (s : TxLoop) : Type 0 where
  pub inv : Inv s
  pub present : has phony s.tx_taskq ≡ true

-- How a round may end. Either a task has been called, and the phony task is nearer to the head; or
-- the phony task came round, and the loop goes on only if nobody asked for a break.
abbrev TurnOk : Bool → TxLoop → Turn → Type 0
TurnOk first s (again b t) =
    Running t
    × (s.tx_stop ≡ true → t.tx_stop ≡ true)
    × (s.tx_break ≡ true → t.tx_break ≡ true)
    × (((b ≡ first) × (before_phony t.tx_taskq < before_phony s.tx_taskq))
        ⊎ ((b ≡ false) × (s.tx_break ≡ false)))
TurnOk first s (leave t) = Running t
TurnOk first s crash = ⊥

abbrev pub RunOk : Run → Type 0
RunOk (finished t) = Running t
RunOk crashed = ⊥
RunOk unfinished = Unit {0}

phony_round-Running :
    (s : TxLoop) (rest : List Ref) → s.tx_taskq ≡ phony ∷ rest → Inv s → Running (phony_round s)
unfolding phony_round
phony_round-Running s rest q v = record {
  inv = phony_round-Inv s rest q v;
  present =
      let same = ap (list_remove phony) q ∙ remove-head phony rest once.0 in
      ap (λ xs. has phony (insert_before_tailer phony xs)) same
      ∙ has-insert phony phony rest (rw q at v.queues.ends);
}
  where
    once : Distinct (phony ∷ rest)
    once = rw q at v.queues.once

-- Which of its flags a loop has does not matter.
Running-break : {s : TxLoop} (b : Bool) → Running s → Running (record s { tx_break = b })
Running-break b r = record {
  inv = record {
    queues =
        let u = r.inv.queues in
        record {
          ends = u.ends;
          once = u.once;
          once_waiting = u.once_waiting;
          real = u.real;
          queued = u.queued;
          waiting = u.waiting;
          one_wait = u.one_wait;
          busy_queued = u.busy_queued;
        };
    activity = r.inv.activity;
  };
  present = r.present;
}

-- The run ends within the fuel.
pub data Ends (r : Run) : Type 0 where
  ends : (t : TxLoop) → r ≡ finished t → Ends r

-- What is asked of the loop before it ends by itself.
abbrev pub Asked : TxLoop → Type 0
Asked s = (s.tx_stop ≡ true) ⊎ (s.tx_break ≡ true)

module _ (callback : ℕ → TxLoop → TxLoop)
    (acts : (p : ℕ) (s : TxLoop) → Calls s (callback p s)) where
  task_turn :
      (p : ℕ) (rest : List Ref) (first : Bool) (s : TxLoop)
      → s.tx_taskq ≡ task p ∷ rest
      → Running s
      → TurnOk first s (again first (callback p (dequeue p s)))
  unfolding dequeue
  task_turn p rest first s q r =
      let v = dequeue-Inv p s rest q r.inv in
      let f = Calls-Forward (acts p (dequeue p s)) v in
      let here : has phony (list_remove (task p) s.tx_taskq) ≡ true =
        has-remove (task p) phony s.tx_taskq ∙ r.present in
      let once : Distinct (task p ∷ rest) = rw q at r.inv.queues.once in
      let same : list_remove (task p) s.tx_taskq ≡ rest =
        ap (list_remove (task p)) q ∙ remove-head (task p) rest once.0 in
      (
        record { inv = Calls-Inv (acts p (dequeue p s)) v; present = f.present here },
        f.stopped,
        f.broken,
        inl (refl, omega (arith, f.nearer here, ap before_phony same, ap before_phony q)),
      )

  phony_turn :
      (rest : List Ref) (first : Bool) (s : TxLoop)
      → s.tx_taskq ≡ phony ∷ rest
      → Running s
      → TurnOk first s (turn_at callback (phony ∷ rest) first s)
  unfolding turn_at
  phony_turn rest first s q r = split s.tx_break refl
    where
      t : TxLoop
      t = phony_round s

      split :
          (b : Bool)
          → s.tx_break ≡ b
          → TurnOk first s (if b then leave (record t { tx_break = false }) else again false t)
      split true e = Running-break false (phony_round-Running s rest q r.inv)
      split false e = (phony_round-Running s rest q r.inv, (λ h. h), (λ h. h), inr (refl, e))

  at-TurnOk :
      (xs : List Ref) (first : Bool) (s : TxLoop)
      → s.tx_taskq ≡ xs
      → Running s
      → TurnOk first s (turn_at callback xs first s)
  unfolding turn_at
  at-TurnOk [] first s q r = let h : false ≡ true = sym (ap (has phony) q) ∙ r.present in cc
  at-TurnOk (tailer ∷ []) first s q r =
      let h : false ≡ true = sym (ap (has phony) q) ∙ r.present in cc
  at-TurnOk (tailer ∷ x ∷ xs) first s q r =
      let h : false ≡ true = sym (ap ends_tailer q) ∙ r.inv.queues.ends in cc
  at-TurnOk (phony ∷ rest) first s q r = phony_turn rest first s q r
  at-TurnOk (task p ∷ rest) first s q r = task_turn p rest first s q r

  turn-TurnOk : (first : Bool) (s : TxLoop) → Running s → TurnOk first s (turn callback first s)
  unfolding turn
  turn-TurnOk first s r = at-TurnOk s.tx_taskq first s refl r

  step_goes :
      (fuel : ℕ) (first : Bool) (s : TxLoop)
      → (not s.tx_stop || first) ≡ true
      → main_loop callback (suc fuel) first s
        ≡ after_turn (main_loop callback fuel) (turn callback first s)
  unfolding main_loop
  step_goes fuel first s go = rw go

  step_ends :
      (fuel : ℕ) (first : Bool) (s : TxLoop)
      → (not s.tx_stop || first) ≡ false
      → main_loop callback (suc fuel) first s ≡ finished s
  unfolding main_loop
  step_ends fuel first s stay = rw stay

  after_RunOk :
      (next : Bool → TxLoop → Run) (first : Bool) (s : TxLoop) (result : Turn)
      → TurnOk first s result
      → ((b : Bool) (t : TxLoop) → Running t → RunOk (next b t))
      → RunOk (after_turn next result)
  unfolding after_turn
  after_RunOk next first s (again b t) ok rec = rec b t ok.0
  after_RunOk next first s (leave t) ok rec = ok
  after_RunOk next first s crash ok rec = absurd ok

  -- The main loop keeps the invariant, and never calls the tailer, however long it runs.
  pub main_loop-RunOk :
      (fuel : ℕ) (first : Bool) (s : TxLoop) → Running s → RunOk (main_loop callback fuel first s)
  unfolding main_loop
  main_loop-RunOk zero first s r = tt
  main_loop-RunOk (suc fuel) first s r = elim (Bool-cases (not s.tx_stop || first)) [
    | inl go ↦ subst RunOk (sym (step_goes fuel first s go)) (
        after_RunOk (main_loop callback fuel) first s _ (turn-TurnOk first s r)
          (main_loop-RunOk fuel))
    | inr stay ↦ subst RunOk (sym (step_ends fuel first s stay)) r
  ]

  stopped_Ends :
      (fuel : ℕ) (s : TxLoop) → s.tx_stop ≡ true → Ends (main_loop callback (suc fuel) false s)
  stopped_Ends fuel s h = ends s (step_ends fuel false s (ground arith))

  after_Ends :
      (fuel : ℕ) (first : Bool) (s : TxLoop) (result : Turn)
      → TurnOk first s result
      → Asked s
      → before_phony s.tx_taskq < fuel
      → ((b : Bool) (t : TxLoop)
          → Running t
          → Asked t
          → before_phony t.tx_taskq + 1 < fuel
          → Ends (main_loop callback fuel b t))
      → Ends (after_turn (main_loop callback fuel) result)
  unfolding after_turn
  after_Ends fuel first s (leave t) ok asked big rec = ends t refl
  after_Ends fuel first s crash ok asked big rec = absurd ok
  after_Ends fuel first s (again b t) (r, keeps, keeps', inl (same, near)) asked big rec =
      rec b t r (ground (arith, keeps, keeps')) (omega arith)
  after_Ends zero first s (again b t) (r, keeps, keeps', inr (new, quiet)) asked big rec =
      absurd (omega arith)
  after_Ends (suc fuel) first s (again b t) (r, keeps, keeps', inr (new, quiet)) asked big rec =
      rw new (stopped_Ends fuel t (ground (arith, keeps)))

  pub main_loop-Ends :
      (fuel : ℕ) (first : Bool) (s : TxLoop)
      → Running s
      → Asked s
      → before_phony s.tx_taskq + 1 < fuel
      → Ends (main_loop callback fuel first s)
  main_loop-Ends zero first s r asked big = absurd (omega arith)
  main_loop-Ends (suc fuel) first s r asked big = elim (Bool-cases (not s.tx_stop || first)) [
    | inl go ↦ subst Ends (sym (step_goes fuel first s go)) (
        after_Ends fuel first s _ (turn-TurnOk first s r) asked (omega arith) (main_loop-Ends fuel))
    | inr stay ↦ ends s (step_ends fuel first s stay)
  ]
