-- ===== src/Timer/Expiry.antt =====
-- One visit of a timer in `tx_timer_polling` (tx_timer.cpp), and a list of them.
use libtx.Common.{
  ℕ, ◌+◌, ◌≤◌, ◌<◌, ◌^◌, ◌≡◌, refl, true, false, Option, none, some, List, [], ◌∷◌, arith, ◌==◌,
  ltb, if◌then◌else◌, if_cases, Bool-cases, inl, inr, ◌∙◌, ap,
}
use libtx.Loop.{TxLoop, tx_task_active, tx_task_drop, drop_task, unlink, enqueue}
use libtx.Timer.{
  TimerRing, TxTimer, Slot, slot_eq, insert_timer, sub32, add32, arm, is_due, expire, expire_each,
  sweep,
}
use libtx.Timer.Wheel.{is_due_lem}
use libtx.Timer.Invariant.{has_timer, Ring}
use libtx.Timer.Arming.{freed-Ring, activate-Ring, tx_timer_reset-Ring}

-- What a visit leaves as it was: the ticks, whether the loop is stopped, the times of all timers, and any armed timer that is not
-- due within 15 ms.
pub record Kept (s t : TimerRing) : Type 0 where
  pub st_tick : t.tx_st_tick ≡ s.tx_st_tick
  pub mi_tick : t.tx_mi_tick ≡ s.tx_mi_tick
  pub ma_tick : t.tx_ma_tick ≡ s.tx_ma_tick
  pub clock : t.tx_ticks ≡ s.tx_ticks
  pub stop : t.loop.tx_stop ≡ s.loop.tx_stop
  pub times : (q : ℕ) → (t.timers q).interval ≡ (s.timers q).interval
  pub spared :
      (q : ℕ)
      → s.tx_ticks + 15 ≤ (s.timers q).interval
      → (s.timers q).idle ≡ false
      → (t.timers q).idle ≡ false

pub Kept-refl : (s : TimerRing) → Kept s s
Kept-refl s = record {
  st_tick = refl;
  mi_tick = refl;
  ma_tick = refl;
  clock = refl;
  stop = refl;
  times = λ q. refl;
  spared = λ q h e. e;
}

pub Kept-trans : {s t u : TimerRing} → Kept s t → Kept t u → Kept s u
Kept-trans a b = record {
  st_tick = b.st_tick ∙ a.st_tick;
  mi_tick = b.mi_tick ∙ a.mi_tick;
  ma_tick = b.ma_tick ∙ a.ma_tick;
  clock = b.clock ∙ a.clock;
  stop = b.stop ∙ a.stop;
  times = λ q. b.times q ∙ a.times q;
  spared = λ q h e. b.spared q (omega (arith, a.clock, a.times q)) (a.spared q h e);
}

active-stop :
    (task : Option ℕ) (reason : ℕ) (l : TxLoop) → (tx_task_active task reason l).tx_stop ≡ l.tx_stop
unfolding tx_task_active tx_task_drop drop_task unlink enqueue
active-stop none reason l = refl
active-stop (some p) reason l = ground arith

-- A timer is set again to the time that it had.
reset_time : (i ticks : ℕ) → i < 2 ^ 32 → ticks < 2 ^ 32 → add32 ticks (sub32 i ticks) ≡ i
reset_time i ticks h k = omega arith

-- A visit makes a timer idle exactly when it is due within 15 ms, and no other timer.
pub expire-idle :
    (ticks p : ℕ) (s : TimerRing)
    → (s.timers p).interval < 2 ^ 31
    → ticks + 15 ≤ 2 ^ 31
    → ((expire ticks p s).timers p).idle ≡ ltb (s.timers p).interval (ticks + 15)
unfolding expire arm insert_timer
expire-idle ticks p s bound small = ground (arith, is_due_lem (s.timers p).interval ticks)

pub expire-others :
    (ticks p q : ℕ) (s : TimerRing) → (q == p) ≡ false → (expire ticks p s).timers q ≡ s.timers q
unfolding expire arm insert_timer
expire-others ticks p q s ne = ground arith

pub expire-Kept :
    (ticks p : ℕ) (s : TimerRing)
    → s.tx_ticks ≡ ticks
    → ticks + 15 ≤ 2 ^ 31
    → (s.timers p).interval < 2 ^ 31
    → Kept s (expire ticks p s)
unfolding expire arm insert_timer
expire-Kept ticks p s now small bound = record {
  st_tick = ground arith;
  mi_tick = ground arith;
  ma_tick = ground arith;
  clock = ground arith;
  stop = ground (arith, active-stop (s.timers p).tx_task p s.loop);
  times = λ q. ground (arith, reset_time (s.timers p).interval ticks);
  spared = λ q h e. elim (Bool-cases (q == p)) [
    | inl same ↦ let f : q ≡ p = ground arith in ground (arith, expire-idle ticks p s bound small)
    | inr other ↦ ap (λ (t : TxTimer). t.idle) (expire-others ticks p q s other) ∙ e
  ];
}

pub expire-Ring :
    (ticks p : ℕ) (s : TimerRing)
    → Ring s
    → s.tx_ticks ≡ ticks
    → (s.timers p).interval < 2 ^ 31
    → Ring (expire ticks p s)
unfolding expire
expire-Ring ticks p s r now bound =
    if_cases Ring (is_due (s.timers p).interval ticks)
      (λ e. activate-Ring (s.timers p).tx_task p (freed-Ring p r))
      (λ e. tx_timer_reset-Ring p _ (freed-Ring p r) (later e))
  where
    later :
        is_due (s.timers p).interval ticks ≡ false
        → s.tx_ticks + sub32 (s.timers p).interval ticks < 2 ^ 31
    later e =
        let i = (s.timers p).interval in
        let late : ticks + 15 ≤ i = ground (arith, is_due_lem i ticks, r.ticks.small) in
        omega (arith, r.ticks.small)

-- All the timers of a list are due within the 31 bits.
abbrev pub Bounded : List ℕ → TimerRing → Type 0
Bounded ps s = (p : ℕ) → has_timer p ps ≡ true → (s.timers p).interval < 2 ^ 31

pub record Swept (s t : TimerRing) : Type 0 where
  pub ring : Ring t
  pub kept : Kept s t

pub expire_each-Swept :
    (ticks : ℕ) (ps : List ℕ) (s : TimerRing)
    → Ring s
    → s.tx_ticks ≡ ticks
    → Bounded ps s
    → Swept s (expire_each ticks ps s)
unfolding expire_each
expire_each-Swept ticks [] s r now bound = record { ring = r; kept = Kept-refl s }
expire_each-Swept ticks (p ∷ ps) s r now bound =
    let b = bound p (ground arith) in
    let k = expire-Kept ticks p s now (omega (arith, r.ticks.small)) b in
    let rest =
      expire_each-Swept ticks ps (expire ticks p s) (expire-Ring ticks p s r now b) (k.clock ∙ now)
        (λ q h. omega (arith, k.times q, bound q (ground arith))) in
    record { ring = rest.ring; kept = Kept-trans k rest.kept }

-- The list of a slot is emptied before its timers are visited.
abbrev pub emptied : Slot → TimerRing → TimerRing
emptied k s = record s { lists = λ j. if slot_eq j k then [] else s.lists j }

pub sweep-Swept :
    (ticks : ℕ) (k : Slot) (s : TimerRing)
    → Ring (emptied k s)
    → s.tx_ticks ≡ ticks
    → Bounded (s.lists k) s
    → Swept s (sweep ticks k s)
unfolding sweep
sweep-Swept ticks k s r now bound =
    let w = expire_each-Swept ticks (s.lists k) (emptied k s) r now bound in
    record {
      ring = w.ring;
      kept =
          let a = w.kept in
          record {
            st_tick = a.st_tick;
            mi_tick = a.mi_tick;
            ma_tick = a.ma_tick;
            clock = a.clock;
            stop = a.stop;
            times = a.times;
            spared = a.spared;
          };
    }
