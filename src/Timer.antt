-- ===== src/Timer.antt =====
-- tx_timer.cpp and include/tx_timer.h: timers on a minor wheel of 50 slots of 15 ms, a major wheel
-- of 60 slots of 750 ms, and one list for all that is farther away.
--
-- A timer is a number, its address. `TimerRing` is the `tx_timer_ring` together with what it works
-- on: the memory of the timers, the clock `tx_ticks` and the loop whose tasks the timers activate.
-- `unsigned` is 32 bits wide and `size_t` 64, as on the 64-bit systems of the Makefile.
pub mod Arming
pub mod Expiry
pub mod Firing
pub mod Invariant
pub mod Loops
pub mod Polling
pub mod Rounds
pub mod Setting
mod Tests
pub mod Whole
pub mod Wheel
use libtx.Common.{
  ℕ, zero, suc, ◌+◌, ◌-◌, ◌*◌, ◌/◌, ◌%◌, ◌^◌, Bool, true, false, not, Option, none, some, List, [],
  ◌∷◌, ◌==◌, ltb, if◌then◌else◌, update,
}
use libtx.Loop.{TxLoop, flags_of, tx_task_init, tx_task_active, tx_poll_active, tx_loop_timeout}

abbrev pub min_time_out : ℕ
min_time_out = 15

abbrev pub max_mi_wheel : ℕ
max_mi_wheel = 50

abbrev pub max_ma_wheel : ℕ
max_ma_wheel = 60

abbrev pub min_ma_timer : ℕ
min_ma_timer = min_time_out * max_mi_wheel

abbrev pub min_st_timer : ℕ
min_st_timer = min_ma_timer * max_ma_wheel

-- `a - b` and `a + b` in `unsigned` and in `size_t`.
abbrev pub sub32 : ℕ → ℕ → ℕ
sub32 a b = (a + 2 ^ 32 - b) % 2 ^ 32

abbrev pub add32 : ℕ → ℕ → ℕ
add32 a b = (a + b) % 2 ^ 32

abbrev pub sub64 : ℕ → ℕ → ℕ
sub64 a b = (a + 2 ^ 64 - b) % 2 ^ 64

abbrev pub add64 : ℕ → ℕ → ℕ
add64 a b = (a + b) % 2 ^ 64

-- `(int) x >= 0`, which reads the low 32 bits.
abbrev pub int_nonneg : ℕ → Bool
int_nonneg x = ltb (x % 2 ^ 32) (2 ^ 31)

-- TIMER_IDLE is the only bit of `tx_flags`.
pub record TxTimer : Type 0 where
  pub idle : Bool
  pub interval : ℕ
  pub tx_task : Option ℕ

-- The lists of a ring: `tx_mi_timers [w]`, `tx_ma_timers [w]` and `tx_st_timers`.
pub data Slot : Type 0 where
  minor : ℕ → Slot
  major : ℕ → Slot
  slow : Slot

abbrev pub slot_eq : Slot → Slot → Bool
slot_eq (minor v) (minor w) = v == w
slot_eq (major v) (major w) = v == w
slot_eq slow slow = true
slot_eq _ _ = false

pub record TimerRing : Type 0 where
  pub tx_st_tick : ℕ
  pub tx_mi_tick : ℕ
  pub tx_mi_wheel : ℕ
  pub tx_ma_tick : ℕ
  pub tx_ma_wheel : ℕ
  pub tx_tm_callout : ℕ
  pub lists : Slot → List ℕ
  pub timers : ℕ → TxTimer
  pub tx_ticks : ℕ
  pub loop : TxLoop

-- `LIST_REMOVE`, as it changes one list.
unfoldable pub remove_timer : ℕ → List ℕ → List ℕ
remove_timer p [] = []
remove_timer p (x ∷ xs) = let rest = remove_timer p xs in if x == p then rest else x ∷ rest

-- `LIST_REMOVE (timer, entries)`: the timer leaves whichever list it is in.
unfoldable pub unlink_timer : ℕ → TimerRing → TimerRing
unlink_timer p s = record s { lists = λ k. remove_timer p (s.lists k) }

-- `LIST_INSERT_HEAD (list, timer, entries)`.
unfoldable pub insert_timer : Slot → ℕ → TimerRing → TimerRing
insert_timer k p s = record s { lists = λ j. if slot_eq j k then p ∷ s.lists j else s.lists j }

abbrev pub set_idle : ℕ → Bool → TimerRing → TimerRing
set_idle p b s = record s { timers = update s.timers p (record (s.timers p) { idle = b }) }

-- `tx_timer_init`, with the provider given.
unfoldable pub tx_timer_init : ℕ → Option ℕ → TimerRing → TimerRing
tx_timer_init p task s = record s {
  timers = update s.timers p (record { idle = true; interval = 0; tx_task = task });
}

abbrev pub at_least_one : ℕ → ℕ
at_least_one n = if n == 0 then 1 else n

-- Where `tx_timer_reset` puts a timer that is due at `interval`.
unfoldable pub slot_for : ℕ → TimerRing → Slot
slot_for interval s =
    let mi_wheel = at_least_one (sub64 interval s.tx_mi_tick / min_time_out) in
    let ma_wheel = sub64 interval s.tx_ma_tick / min_ma_timer in
    if ltb mi_wheel max_mi_wheel
    then minor (add64 s.tx_mi_wheel mi_wheel % max_mi_wheel)
    else if ltb ma_wheel max_ma_wheel
    then major (add64 s.tx_ma_wheel ma_wheel % max_ma_wheel)
    else slow

-- `tx_timer_reset` of an idle timer.
unfoldable pub arm : ℕ → ℕ → TimerRing → TimerRing
unfolding slot_for insert_timer
arm p umilsec s =
    let interval = add32 s.tx_ticks umilsec in
    insert_timer (slot_for interval s) p (record s {
      timers = update s.timers p (record (s.timers p) { idle = false; interval = interval });
    })

-- A timer that is armed is taken out first; the call of `tx_timer_reset` inside it finds it idle.
unfoldable pub tx_timer_reset : ℕ → ℕ → TimerRing → TimerRing
unfolding arm unlink_timer
tx_timer_reset p umilsec s =
    if (s.timers p).idle
    then arm p umilsec s
    else arm p umilsec (set_idle p true (unlink_timer p s))

abbrev pub activate : Option ℕ → ℕ → TimerRing → TimerRing
activate task reason s = record s { loop = tx_task_active task reason s.loop }

unfoldable pub tx_timer_drain : ℕ → TimerRing → TimerRing
unfolding unlink_timer
tx_timer_drain p s =
    if (s.timers p).idle
    then s
    else activate (s.timers p).tx_task p (set_idle p true (unlink_timer p s))

unfoldable pub tx_timer_stop : ℕ → TimerRing → TimerRing
unfolding unlink_timer
tx_timer_stop p s = if (s.timers p).idle then s else unlink_timer p (set_idle p true s)

-- `(int)(cur->interval - ticks - MIN_TIME_OUT) < 0`.
abbrev pub is_due : ℕ → ℕ → Bool
is_due interval ticks = not (int_nonneg (sub32 (sub32 interval ticks) min_time_out))

-- What the three loops of `tx_timer_polling` do with a timer that they visit.
unfoldable pub expire : ℕ → ℕ → TimerRing → TimerRing
unfolding tx_timer_reset unlink_timer
expire ticks p s =
    let t = set_idle p true (unlink_timer p s) in
    if is_due (s.timers p).interval ticks
    then activate (s.timers p).tx_task p t
    else tx_timer_reset p (sub32 (s.timers p).interval ticks) t

unfoldable pub expire_each : ℕ → List ℕ → TimerRing → TimerRing
expire_each ticks [] s = s
expire_each ticks (p ∷ ps) s = expire_each ticks ps (expire ticks p s)

-- `timerq = list; LIST_INIT (&list); LIST_FOREACH_SAFE (cur, &timerq, …)`.
unfoldable pub sweep : ℕ → Slot → TimerRing → TimerRing
unfolding expire_each
sweep ticks k s =
    expire_each ticks (s.lists k) (record s { lists = λ j. if slot_eq j k then [] else s.lists j })

-- `(int)(ticks - tick - step) >= 0`, with `tick` a `size_t`.
abbrev pub has_passed : ℕ → ℕ → ℕ → Bool
has_passed ticks tick step = int_nonneg (sub64 (sub64 ticks tick) step)

-- One round of the first `while`.
unfoldable pub minor_round : ℕ → TimerRing → TimerRing
unfolding sweep
minor_round ticks s =
    let wheel = add64 s.tx_mi_wheel 1 in
    sweep ticks (minor (wheel % max_mi_wheel))
      (record s { tx_mi_tick = add64 s.tx_mi_tick min_time_out; tx_mi_wheel = wheel })

unfoldable pub minor_loop : ℕ → ℕ → TimerRing → TimerRing
unfolding minor_round
minor_loop zero ticks s = s
minor_loop (suc fuel) ticks s =
    let rest = minor_loop fuel ticks (minor_round ticks s) in
    if has_passed ticks s.tx_mi_tick min_time_out then rest else s

-- One round of the second `while`.
unfoldable pub major_round : ℕ → TimerRing → TimerRing
unfolding sweep
major_round ticks s =
    let wheel = add64 s.tx_ma_wheel 1 in
    sweep ticks (major (wheel % max_ma_wheel))
      (record s { tx_ma_tick = add64 s.tx_ma_tick min_ma_timer; tx_ma_wheel = wheel })

unfoldable pub major_loop : ℕ → ℕ → TimerRing → TimerRing
unfolding major_round
major_loop zero ticks s = s
major_loop (suc fuel) ticks s =
    let rest = major_loop fuel ticks (major_round ticks s) in
    if has_passed ticks s.tx_ma_tick min_ma_timer then rest else s

unfoldable pub slow_round : ℕ → TimerRing → TimerRing
unfolding sweep
slow_round ticks s =
    if has_passed ticks s.tx_st_tick min_st_timer
    then sweep ticks slow (record s { tx_st_tick = ticks })
    else s

-- Each round of a loop takes 15 ms or more off what has passed, so this many are enough.
abbrev pub fuel_for : ℕ → ℕ → ℕ
fuel_for ticks tick = suc (sub64 ticks tick % 2 ^ 32)

-- The three loops, after `tx_getticks` has returned `ticks`.
unfoldable pub expire_all : ℕ → TimerRing → TimerRing
unfolding minor_loop major_loop slow_round
expire_all ticks s =
    let t = minor_loop (fuel_for ticks s.tx_mi_tick) ticks (record s { tx_ticks = ticks }) in
    slow_round ticks (major_loop (fuel_for ticks t.tx_ma_tick) ticks t)

-- The end of `tx_timer_polling`. `none`: the callout could not be queued again, and the ring was
-- deleted.
unfoldable pub requeue : TimerRing → Option TimerRing
requeue s =
    let polled = tx_poll_active s.tx_tm_callout s.loop in
    if (flags_of polled s.tx_tm_callout).idle then none else some (record s { loop = polled })

-- `self` is the address of the ring and `later` what `tx_getticks` returns after the sleep.
unfoldable pub tx_timer_polling : (self ticks later : ℕ) → TimerRing → Option TimerRing
unfolding expire_all requeue
tx_timer_polling self ticks later s =
    let t = expire_all ticks s in
    requeue (if tx_loop_timeout t.loop self == 0 then t else record t { tx_ticks = later })

-- `tx_timer_ring_new` at the time `ticks`; `callout` is the task of its poll, and `call` the address
-- of `tx_timer_polling`.
unfoldable pub tx_timer_ring_new :
    (callout call self ticks : ℕ) → (ℕ → TxTimer) → TxLoop → Option TimerRing
tx_timer_ring_new callout call self ticks timers loop =
    let polled = tx_poll_active callout (tx_task_init callout call self loop) in
    if (flags_of polled callout).idle
    then none
    else some (record {
      tx_st_tick = ticks;
      tx_mi_tick = ticks;
      tx_mi_wheel = 0;
      tx_ma_tick = ticks;
      tx_ma_wheel = 0;
      tx_tm_callout = callout;
      lists = λ _. [];
      timers = timers;
      tx_ticks = ticks;
      loop = polled;
    })
