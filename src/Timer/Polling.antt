-- ===== src/Timer/Polling.antt =====
-- The three loops of `tx_timer_polling` (tx_timer.cpp) one after the other.
use libtx.Common.{ℕ, ◌+◌, ◌≤◌, ◌<◌, ◌^◌, ◌≡◌, refl, true, arith, ◌∙◌, subst}
use libtx.Timer.{TimerRing, Slot, minor, major, slow, minor_loop, fuel_for, expire_all}
use libtx.Timer.Wheel.{Placed}
use libtx.Timer.Invariant.{has_timer, Ring}
use libtx.Timer.Loops.{Caught, minor_loop-Done, major_loop-Done, slow_round-Done}

clock-Placed :
    (s : TimerRing) (ticks : ℕ) (k : Slot) (i : ℕ)
    → Placed s k i
    → Placed (record s { tx_ticks = ticks }) k i
clock-Placed s ticks (minor w) i p = p
clock-Placed s ticks (major w) i p = p
clock-Placed s ticks slow i p = p

-- The clock moves on between two polls.
pub clock-Ring :
    {s : TimerRing} (ticks : ℕ)
    → Ring s
    → s.tx_ticks ≤ ticks
    → ticks + 15 ≤ 2 ^ 31
    → Ring (record s { tx_ticks = ticks })
clock-Ring {s} ticks r h small = record {
  ticks = let t = r.ticks in omega arith;
  armed = record {
    placed = λ k q e. clock-Placed s ticks k _ (r.armed.placed k q e);
    live = r.armed.live;
    bounded = r.armed.bounded;
    one_list = r.armed.one_list;
  };
}

-- From a ring that satisfies the invariant, at a time that is not before its clock and at most
-- 2^31 - 15, the three loops of `tx_timer_polling` end with the invariant, the clock at that time,
-- the times of all timers as they were, every armed timer that is due 15 ms later or more still armed,
-- and each tick within its step of the clock.
pub expire_all-Caught :
    (ticks : ℕ) (s : TimerRing)
    → Ring s
    → s.tx_ticks ≤ ticks
    → ticks + 15 ≤ 2 ^ 31
    → Caught ticks s (expire_all ticks s)
unfolding expire_all
expire_all-Caught ticks s r h small =
    let r0 = clock-Ring ticks r h small in
    let a =
      minor_loop-Done (fuel_for ticks s.tx_mi_tick) ticks _ r0 refl
        (omega (arith, r.ticks.mi_past)) in
    let b =
      major_loop-Done
        (fuel_for ticks
          (minor_loop (fuel_for ticks s.tx_mi_tick) ticks
            (record s { tx_ticks = ticks })).tx_ma_tick)
        ticks _ a.looped.ring a.looped.clock a.caught
        (omega (
          arith, a.looped.clock, a.looped.ring.ticks.mi_past, a.looped.ring.ticks.ma_past, small,
        )) in
    let c = slow_round-Done ticks _ b.looped.ring b.looped.clock b.caught b.caught_major in
    record {
      ring = c.ring;
      clock = c.clock;
      stop = c.stop ∙ b.looped.stop ∙ a.looped.stop;
      times = λ q. c.times q ∙ b.looped.times q ∙ a.looped.times q;
      spared = λ q h e.
          c.spared q (omega (arith, b.looped.times q, a.looped.times q))
            (b.looped.spared q (omega (arith, a.looped.times q)) (a.looped.spared q h e));
      minor_done = c.minor_done;
      major_done = c.major_done;
      slow_done = c.slow_done;
    }

-- How long a timer of a list may be overdue when the loops are over.
abbrev pub slack : Slot → ℕ
slack (minor w) = 15
slack (major w) = 0
slack slow = 750

-- From a ring that satisfies the invariant, at a time that is not before its clock and at most
-- 2^31 - 15: after the three loops of `tx_timer_polling` every timer that is in a list is overdue by
-- less than the slack of that list, 15 ms for the minor wheel, none for the major wheel and 750 ms for
-- the slow list.
pub expire_all-overdue :
    (ticks : ℕ) (s : TimerRing)
    → Ring s
    → s.tx_ticks ≤ ticks
    → ticks + 15 ≤ 2 ^ 31
    → (k : Slot) (p : ℕ) → has_timer p ((expire_all ticks s).lists k) ≡ true
    → ticks < (s.timers p).interval + slack k
expire_all-overdue ticks s r h small k p listed =
    let c = expire_all-Caught ticks s r h small in
    let here : Placed (expire_all ticks s) k (s.timers p).interval =
      subst (λ i. Placed (expire_all ticks s) k i) (c.times p) (c.ring.armed.placed k p listed) in
    late k (s.timers p).interval here c.minor_done c.major_done c.slow_done
  where
    late :
        (k : Slot) (i : ℕ)
        → Placed (expire_all ticks s) k i
        → ticks < (expire_all ticks s).tx_mi_tick + 15
        → ticks < (expire_all ticks s).tx_ma_tick + 750
        → ticks < (expire_all ticks s).tx_st_tick + 45000
        → ticks < i + slack k
    late (minor w) i p a b c = omega arith
    late (major w) i p a b c = omega arith
    late slow i p a b c = omega arith
