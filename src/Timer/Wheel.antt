-- ===== src/Timer/Wheel.antt =====
-- The arithmetic of the wheels of tx_timer.cpp, while the clock is at most 2^31 - 15 ms (some 24 days).
use libtx.Common.{ℕ, ◌+◌, ◌-◌, ◌*◌, ◌%◌, ◌^◌, ◌≤◌, ◌<◌, ◌≡◌, true, false, arith, ltb, leb, sym, ◌∙◌}
use libtx.Timer.{
  TimerRing, Slot, slot_eq, minor, major, slow, slot_for, sub64, add64, has_passed, is_due,
}

-- How far slot `w` of a wheel of `n` slots is from the one that was emptied last.
abbrev pub dist : (w wheel n : ℕ) → ℕ
dist w wheel n = (w + n - wheel % n) % n

-- The ticks of a ring: where the clock is between two polls of the ring.
pub record Ticks (s : TimerRing) : Type 0 where
  pub mi_past : s.tx_mi_tick ≤ s.tx_ticks
  pub ma_past : s.tx_ma_tick ≤ s.tx_mi_tick
  pub st_past : s.tx_st_tick ≤ s.tx_ticks
  pub st_near : s.tx_st_tick < s.tx_ma_tick + 750
  pub aligned : (s.tx_mi_tick - s.tx_ma_tick) % 15 ≡ 0
  pub mi_count : s.tx_mi_wheel * 15 ≤ s.tx_mi_tick
  pub ma_count : s.tx_ma_wheel * 750 ≤ s.tx_ma_tick
  pub small : s.tx_ticks + 15 ≤ 2 ^ 31

-- Where a timer that is due at `i` may be. The slot of the minor wheel that comes round in d steps
-- comes round at `tx_mi_tick + 15 d`, less than 15 ms before or after the timer is due; likewise
-- for the major wheel, but never after it is due.
abbrev pub Placed : TimerRing → Slot → ℕ → Type 0
Placed s (minor w) i =
    (w < 50)
    × (1 ≤ dist w s.tx_mi_wheel 50)
    × (s.tx_mi_tick + 15 * dist w s.tx_mi_wheel 50 ≤ i + 15)
    × (i < s.tx_mi_tick + 15 * dist w s.tx_mi_wheel 50 + 15)
Placed s (major w) i =
    (w < 60)
    × (1 ≤ dist w s.tx_ma_wheel 60)
    × (s.tx_ma_tick + 750 * dist w s.tx_ma_wheel 60 ≤ i)
    × (i < s.tx_ma_tick + 750 * dist w s.tx_ma_wheel 60 + 750)
Placed s slow i = s.tx_st_tick + 45000 < i + 750

pub sub64-le : (a b : ℕ) → b ≤ a → a < 2 ^ 32 → sub64 a b ≡ a - b
sub64-le a b h k = omega arith

-- `tx_timer_reset` chooses a right place for every timer that is due now or later.
pub slot_for-Placed :
    (s : TimerRing) (i : ℕ) → Ticks s → s.tx_ticks ≤ i → i < 2 ^ 31 → Placed s (slot_for i s) i
unfolding slot_for
slot_for-Placed s i t h l = ground (arith, sub64-le i s.tx_mi_tick, sub64-le i s.tx_ma_tick)

-- The tests of `tx_timer_polling` compare as one would expect.
pub has_passed_lem :
    (ticks tick step : ℕ)
    → tick ≤ ticks
    → ticks < 2 ^ 31
    → step < 2 ^ 31
    → has_passed ticks tick step ≡ leb (tick + step) ticks
has_passed_lem ticks tick step h small small' = ground arith

module _ (ticks tick step : ℕ) (h : tick ≤ ticks) (small : ticks < 2 ^ 31)
    (small' : step < 2 ^ 31) where
  pub le_of_passed : has_passed ticks tick step ≡ true → tick + step ≤ ticks
  le_of_passed e =
      let f : leb (tick + step) ticks ≡ true =
        sym (has_passed_lem ticks tick step h small small') ∙ e in
      ground arith

  pub lt_of_not_passed : has_passed ticks tick step ≡ false → ticks < tick + step
  lt_of_not_passed e =
      let f : leb (tick + step) ticks ≡ false =
        sym (has_passed_lem ticks tick step h small small') ∙ e in
      ground arith

pub is_due_lem :
    (i ticks : ℕ) → i < 2 ^ 31 → ticks + 15 ≤ 2 ^ 31 → is_due i ticks ≡ ltb i (ticks + 15)
is_due_lem i ticks h small = ground arith

-- The ring after the ticks of one round of the first loop, and of the second.
abbrev pub minor_tick : TimerRing → TimerRing
minor_tick s = record s { tx_mi_tick = add64 s.tx_mi_tick 15; tx_mi_wheel = add64 s.tx_mi_wheel 1 }

abbrev pub major_tick : TimerRing → TimerRing
major_tick s = record s { tx_ma_tick = add64 s.tx_ma_tick 750; tx_ma_wheel = add64 s.tx_ma_wheel 1 }

pub Placed-minor_tick :
    (s : TimerRing) (k : Slot) (i : ℕ)
    → Ticks s
    → Placed s k i
    → slot_eq k (minor (add64 s.tx_mi_wheel 1 % 50)) ≡ false
    → Placed (minor_tick s) k i
Placed-minor_tick s (minor w) i t p ne = ground arith
Placed-minor_tick s (major w) i t p ne = p
Placed-minor_tick s slow i t p ne = p

pub Placed-major_tick :
    (s : TimerRing) (k : Slot) (i : ℕ)
    → Ticks s
    → Placed s k i
    → slot_eq k (major (add64 s.tx_ma_wheel 1 % 60)) ≡ false
    → Placed (major_tick s) k i
Placed-major_tick s (minor w) i t p ne = p
Placed-major_tick s (major w) i t p ne = ground arith
Placed-major_tick s slow i t p ne = p

pub Ticks-minor_tick :
    (s : TimerRing) → Ticks s → s.tx_mi_tick + 15 ≤ s.tx_ticks → Ticks (minor_tick s)
Ticks-minor_tick s t h = omega arith

-- The major wheel follows when the minor wheel has caught up with the clock.
pub Ticks-major_tick :
    (s : TimerRing)
    → Ticks s
    → s.tx_ticks < s.tx_mi_tick + 15
    → s.tx_ma_tick + 750 ≤ s.tx_ticks
    → Ticks (major_tick s)
Ticks-major_tick s t caught h = omega arith
