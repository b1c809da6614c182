-- ===== src/Timer/Whole.antt =====
-- `tx_timer_ring_new` and `tx_timer_polling` (tx_timer.cpp) as a whole, under the invariant.
use libtx.Common.{
  ℕ, ◌+◌, ◌^◌, ◌≤◌, ◌≡◌, refl, true, false, Option, some, List, [], arith, ◌==◌, if◌then◌else◌,
  if_cases, ap, ◌∙◌,
}
use libtx.Loop.{TxLoop, flags_of, tx_task_init, tx_poll_active, tx_loop_timeout}
use libtx.Timer.{TimerRing, TxTimer, Slot, expire_all, requeue, tx_timer_polling, tx_timer_ring_new}
use libtx.Timer.Invariant.{has_timer, Armed, Ring, same-Ticks, same-Placed}
use libtx.Timer.Polling.{clock-Ring, expire_all-Caught}

-- There is a ring, and it satisfies the invariant.
pub record HasRing (r : Option TimerRing) : Type 0 where
  pub ring : TimerRing
  pub exists : r ≡ some ring
  pub inv : Ring ring

-- The invariant does not depend on the loop.
loop-Ring : {s : TimerRing} (loop : TxLoop) → Ring s → Ring (record s { loop = loop })
loop-Ring {s} loop r = record {
  ticks = same-Ticks s.lists s.timers loop r.ticks;
  armed =
      let a = r.armed in
      record {
        placed = λ k q h. same-Placed s s.lists s.timers loop k _ (a.placed k q h);
        live = a.live;
        bounded = a.bounded;
        one_list = a.one_list;
      };
}

-- The poll of a loop that is not stopped is in its queue after `tx_poll_active`.
queued : (p : ℕ) (l : TxLoop) → l.tx_stop ≡ false → (flags_of (tx_poll_active p l) p).idle ≡ false
unfolding tx_poll_active
queued p l run = ground arith

requeue-Ring : (s : TimerRing) → Ring s → s.loop.tx_stop ≡ false → HasRing (requeue s)
unfolding requeue
requeue-Ring s r run = record {
  ring = record s { loop = tx_poll_active s.tx_tm_callout s.loop };
  exists = rw (queued s.tx_tm_callout s.loop run) refl;
  inv = loop-Ring (tx_poll_active s.tx_tm_callout s.loop) r;
}

slept-Ring :
    (self later : ℕ) (t : TimerRing)
    → Ring t
    → t.tx_ticks ≤ later
    → later + 15 ≤ 2 ^ 31
    → Ring (if tx_loop_timeout t.loop self == 0 then t else record t { tx_ticks = later })
slept-Ring self later t r h small =
    if_cases Ring (tx_loop_timeout t.loop self == 0) (λ e. r) (λ e. clock-Ring later r h small)

-- On a loop that is not stopped `tx_timer_polling` does not delete the ring and keeps its invariant,
-- if the clock does not go back and is at most 2^31 - 15 after the sleep.
pub tx_timer_polling-Ring :
    (self ticks later : ℕ) (s : TimerRing)
    → Ring s
    → s.tx_ticks ≤ ticks
    → ticks ≤ later
    → later + 15 ≤ 2 ^ 31
    → s.loop.tx_stop ≡ false
    → HasRing (tx_timer_polling self ticks later s)
unfolding tx_timer_polling
tx_timer_polling-Ring self ticks later s r h h' small run =
    let c = expire_all-Caught ticks s r h (omega arith) in
    requeue-Ring _
      (slept-Ring self later (expire_all ticks s) c.ring (omega (arith, c.clock)) small)
      (if_cases (λ (t : TimerRing). t.loop.tx_stop ≡ false)
        (tx_loop_timeout (expire_all ticks s).loop self == 0) (λ e. c.stop ∙ run)
        (λ e. c.stop ∙ run))

empty-Armed : {s : TimerRing} → s.lists ≡ (λ _. []) → Armed s
empty-Armed {s} e = record {
  placed = λ k q h. absurd (clash k q h);
  live = λ k q h. absurd (clash k q h);
  bounded = λ k q h. absurd (clash k q h);
  one_list = λ j k q h h'. absurd (clash k q h');
}
  where
    clash : (k : Slot) (q : ℕ) → has_timer q (s.lists k) ≡ true → ⊥
    clash k q h =
        let f : has_timer q (s.lists k) ≡ false = ap (λ (l : Slot → List ℕ). has_timer q (l k)) e in
        cc

-- On a loop that is not stopped a ring is created and satisfies the invariant, if the clock is at
-- most 2^31 - 15 then.
pub tx_timer_ring_new-Ring :
    (callout call self ticks : ℕ) (timers : ℕ → TxTimer) (loop : TxLoop)
    → ticks + 15 ≤ 2 ^ 31
    → loop.tx_stop ≡ false
    → HasRing (tx_timer_ring_new callout call self ticks timers loop)
unfolding tx_timer_ring_new tx_task_init
tx_timer_ring_new-Ring callout call self ticks timers loop small run =
    let t = tx_task_init callout call self loop in
    record {
      ring = record {
        tx_st_tick = ticks;
        tx_mi_tick = ticks;
        tx_mi_wheel = 0;
        tx_ma_tick = ticks;
        tx_ma_wheel = 0;
        tx_tm_callout = callout;
        lists = λ _. [];
        timers = timers;
        tx_ticks = ticks;
        loop = tx_poll_active callout t;
      };
      exists = rw (queued callout t run) refl;
      inv = record { ticks = omega arith; armed = empty-Armed refl };
    }
