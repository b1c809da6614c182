-- ===== src/Timer/Setting.antt =====
-- Where `tx_timer_reset` (tx_timer.cpp) puts a timer, before and after the clock has wrapped.
use libtx.Common.{ℕ, ◌/◌, ◌^◌, ◌≤◌, ◌<◌, ◌≡◌, refl, true, false, arith, if_cases, ==_refl, sym}
use libtx.Timer.{
  TimerRing, Slot, slow, slot_for, sub64, add32, arm, insert_timer, unlink_timer, set_idle,
  tx_timer_reset, tx_timer_stop,
}
use libtx.Timer.Invariant.{has_timer, Unlinked, slot_eq_refl, unlink-Unlinked, Ring, idle-Unlinked}

-- Timer `p` is armed for the time `i`, in the list `k`.
pub record IsSetTo (p i : ℕ) (k : Slot) (s : TimerRing) : Type 0 where
  pub time : (s.timers p).interval ≡ i
  pub live : (s.timers p).idle ≡ false
  pub listed : has_timer p (s.lists k) ≡ true

arm_lem :
    (p umilsec : ℕ) (s : TimerRing)
    → IsSetTo p (add32 s.tx_ticks umilsec) (slot_for (add32 s.tx_ticks umilsec) s) (arm p umilsec s)
unfolding arm insert_timer
arm_lem p umilsec s = record {
  time = ground arith;
  live = ground arith;
  listed =
      let k = slot_for (add32 s.tx_ticks umilsec) s in rw (slot_eq_refl k) (rw (==_refl p) refl);
}

-- Whether or not the timer was armed before, `tx_timer_reset` leaves it armed for the time of the
-- clock and `umilsec` more, modulo 2^32, in the list that `slot_for` chooses.
pub tx_timer_reset_lem :
    (p umilsec : ℕ) (s : TimerRing)
    → IsSetTo p
        (add32 s.tx_ticks umilsec)
        (slot_for (add32 s.tx_ticks umilsec) s)
        (tx_timer_reset p umilsec s)
unfolding tx_timer_reset unlink_timer slot_for
tx_timer_reset_lem p umilsec s =
    if_cases (IsSetTo p (add32 s.tx_ticks umilsec) (slot_for (add32 s.tx_ticks umilsec) s))
      (s.timers p).idle (λ e. arm_lem p umilsec s)
      (λ e. arm_lem p umilsec (set_idle p true (unlink_timer p s)))

slot_for-wrapped :
    (i : ℕ) (s : TimerRing)
    → i < 2 ^ 32
    → 2 ^ 32 ≤ s.tx_ma_tick
    → s.tx_ma_tick ≤ s.tx_mi_tick
    → s.tx_mi_tick < 2 ^ 63
    → slot_for i s ≡ slow
unfolding slot_for
slot_for-wrapped i s bound past order small =
    let far : 50 ≤ sub64 i s.tx_mi_tick / 15 = omega arith in
    let far' : 60 ≤ sub64 i s.tx_ma_tick / 750 = omega arith in ground arith

-- When the wheels have passed 2^32 ms while the clock, of 32 bits, has wrapped, every timer that is
-- set goes to the list of those that are far away, however soon it is due.
pub reset-wrapped :
    (p umilsec : ℕ) (s : TimerRing)
    → 2 ^ 32 ≤ s.tx_ma_tick
    → s.tx_ma_tick ≤ s.tx_mi_tick
    → s.tx_mi_tick < 2 ^ 63
    → IsSetTo p (add32 s.tx_ticks umilsec) slow (tx_timer_reset p umilsec s)
reset-wrapped p umilsec s past order small =
    rw (sym (slot_for-wrapped (add32 s.tx_ticks umilsec) s (omega arith) past order small))
      (tx_timer_reset_lem p umilsec s)

-- After `tx_timer_stop` of any timer of a ring that satisfies the invariant, the timer is in no list.
pub stop-Unlinked : (p : ℕ) (s : TimerRing) → Ring s → Unlinked p (tx_timer_stop p s)
unfolding tx_timer_stop
stop-Unlinked p s r =
    if_cases (Unlinked p) (s.timers p).idle (λ e. idle-Unlinked p r.armed e)
      (λ e. unlink-Unlinked p (set_idle p true s))
