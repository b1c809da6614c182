-- ===== src/Timer/Arming.antt =====
-- `tx_timer_init`, `tx_timer_reset`, `tx_timer_drain` and `tx_timer_stop` (tx_timer.cpp) under the
-- invariant of the ring.
use libtx.Common.{ℕ, ◌+◌, ◌<◌, ◌^◌, ◌≡◌, true, false, Option, arith, update, if_cases}
use libtx.Timer.{
  TimerRing, Slot, unlink_timer, insert_timer, set_idle, slot_for, add32, arm, activate,
  tx_timer_init, tx_timer_reset, tx_timer_drain, tx_timer_stop,
}
use libtx.Timer.Wheel.{Placed, slot_for-Placed}
use libtx.Timer.Invariant.{
  Ring, Unlinked, idle-Unlinked, unlink-Unlinked, change-Armed, inserted-Armed, same-Ticks,
  same-Placed, unlink-Armed,
}

abbrev armed_timer : ℕ → ℕ → TimerRing → TimerRing
armed_timer p i s = record s {
  timers = update s.timers p (record (s.timers p) { idle = false; interval = i });
}

-- A timer that gets a new time and goes into a right list for it.
moved-Ring :
    {s : TimerRing} (k : Slot) (p i : ℕ)
    → Ring s
    → Unlinked p s
    → Placed s k i
    → i < 2 ^ 31
    → Ring (insert_timer k p (armed_timer p i s))
unfolding insert_timer
moved-Ring {s} k p i r u here small = record {
  ticks =
      same-Ticks (insert_timer k p (armed_timer p i s)).lists (armed_timer p i s).timers s.loop
        r.ticks;
  armed =
      let t = armed_timer p i s in
      let place : Placed t k i = same-Placed s s.lists t.timers s.loop k i here in
      let now : (t.timers p).interval ≡ i = ground arith in
      let a =
        inserted-Armed k p (change-Armed p _ r.armed u) u (rw now place) (ground arith)
          (rw now small) in
      record { placed = a.placed; live = a.live; bounded = a.bounded; one_list = a.one_list };
}

arm-Ring :
    {s : TimerRing} (p umilsec : ℕ)
    → Ring s
    → Unlinked p s
    → s.tx_ticks + umilsec < 2 ^ 31
    → Ring (arm p umilsec s)
unfolding arm
arm-Ring {s} p umilsec r u small =
    let i = add32 s.tx_ticks umilsec in
    let exact : i ≡ s.tx_ticks + umilsec = omega arith in
    moved-Ring (slot_for i s) p i r u (slot_for-Placed s i r.ticks (omega arith) (omega arith))
      (omega arith)

-- A timer that has left its list and is idle.
abbrev pub freed : ℕ → TimerRing → TimerRing
freed p s = set_idle p true (unlink_timer p s)

pub freed-Ring : {s : TimerRing} (p : ℕ) → Ring s → Ring (freed p s)
unfolding unlink_timer
freed-Ring {s} p r = record {
  ticks = same-Ticks (unlink_timer p s).lists (freed p s).timers s.loop r.ticks;
  armed = change-Armed p _ (unlink-Armed p r.armed) (unlink-Unlinked p s);
}

pub freed-Unlinked : (p : ℕ) (s : TimerRing) → Unlinked p (freed p s)
freed-Unlinked p s = unlink-Unlinked p s

-- An armed timer of the ring may change its task's loop.
pub activate-Ring :
    {s : TimerRing} (task : Option ℕ) (reason : ℕ) → Ring s → Ring (activate task reason s)
activate-Ring {s} task reason r = record {
  ticks = same-Ticks s.lists s.timers (activate task reason s).loop r.ticks;
  armed =
      let a = r.armed in
      record {
        placed = λ k q h.
            same-Placed s s.lists s.timers (activate task reason s).loop k _ (a.placed k q h);
        live = a.live;
        bounded = a.bounded;
        one_list = a.one_list;
      };
}

-- In a ring that satisfies the invariant, a timer may be set, whether or not it is armed already, if
-- the clock and the delay together are less than 2^31 ms: the invariant holds again.
pub tx_timer_reset-Ring :
    {s : TimerRing} (p umilsec : ℕ)
    → Ring s
    → s.tx_ticks + umilsec < 2 ^ 31
    → Ring (tx_timer_reset p umilsec s)
unfolding tx_timer_reset
tx_timer_reset-Ring {s} p umilsec r small =
    if_cases Ring (s.timers p).idle (λ e. arm-Ring p umilsec r (idle-Unlinked p r.armed e) small)
      (λ e. arm-Ring p umilsec (freed-Ring p r) (freed-Unlinked p s) small)

pub tx_timer_drain-Ring : {s : TimerRing} (p : ℕ) → Ring s → Ring (tx_timer_drain p s)
unfolding tx_timer_drain
tx_timer_drain-Ring {s} p r =
    if_cases Ring (s.timers p).idle (λ e. r) (λ e. activate-Ring _ p (freed-Ring p r))

pub tx_timer_stop-Ring : {s : TimerRing} (p : ℕ) → Ring s → Ring (tx_timer_stop p s)
unfolding tx_timer_stop
tx_timer_stop-Ring {s} p r = if_cases Ring (s.timers p).idle (λ e. r) (λ e. freed-Ring p r)

-- A timer that is in no list may be initialised.
pub tx_timer_init-Ring :
    {s : TimerRing} (p : ℕ) (task : Option ℕ)
    → Ring s
    → Unlinked p s
    → Ring (tx_timer_init p task s)
unfolding tx_timer_init
tx_timer_init-Ring {s} p task r u = record {
  ticks = same-Ticks s.lists (tx_timer_init p task s).timers s.loop r.ticks;
  armed = change-Armed p _ r.armed u;
}
