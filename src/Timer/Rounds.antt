-- ===== src/Timer/Rounds.antt =====
-- One round of each of the three loops of `tx_timer_polling` (tx_timer.cpp): the ticks move on, and
-- the timers of one slot are visited.
use libtx.Common.{ℕ, ◌+◌, ◌%◌, ◌≤◌, ◌<◌, ◌≡◌, refl, true, false, arith}
use libtx.Timer.{
  TimerRing, Slot, minor, major, slow, slot_eq, add64, minor_round, major_round, sweep,
}
use libtx.Timer.Wheel.{
  Ticks, Placed, minor_tick, major_tick, Placed-minor_tick, Placed-major_tick, Ticks-minor_tick,
  Ticks-major_tick,
}
use libtx.Timer.Invariant.{has_timer, Armed, Ring, same-Ticks, same-Placed}
use libtx.Timer.Expiry.{Swept, emptied, sweep-Swept}

-- In an emptied slot there is nothing; the others are as they were.
in_emptied :
    (k j : Slot) (p : ℕ) (s : TimerRing)
    → has_timer p ((emptied k s).lists j) ≡ true
    → (slot_eq j k ≡ false) × (has_timer p (s.lists j) ≡ true)
in_emptied k j p s h = ground arith

-- `t` has the lists and timers of `s`, and its own ticks, for which every list but that of slot `k`
-- is a right place still.
pub emptied-Ring :
    {s t : TimerRing} (k : Slot)
    → Armed s
    → Ticks t
    → t.lists ≡ s.lists
    → t.timers ≡ s.timers
    → ((j : Slot) (i : ℕ) → Placed s j i → slot_eq j k ≡ false → Placed t j i)
    → Ring (emptied k t)
emptied-Ring {s} {t} k a ticks same same' place = record {
  ticks = same-Ticks (emptied k t).lists t.timers t.loop ticks;
  armed = record {
    placed = λ j q h.
        let (ne, old) = in_emptied k j q t h in
        same-Placed t (emptied k t).lists t.timers t.loop j _
          (rw same' (place j _ (a.placed j q (rw same at old)) ne));
    live = λ j q h. let (ne, old) = in_emptied k j q t h in rw same' (a.live j q (rw same at old));
    bounded =
        λ j q h. let (ne, old) = in_emptied k j q t h in rw same' (a.bounded j q (rw same at old));
    one_list = λ i j q h h'.
        a.one_list i j q (rw same at (in_emptied k i q t h).1)
          (rw same at (in_emptied k j q t h').1);
  };
}

pub minor_round-Swept :
    (ticks : ℕ) (s : TimerRing)
    → Ring s
    → s.tx_ticks ≡ ticks
    → s.tx_mi_tick + 15 ≤ ticks
    → Swept (minor_tick s) (minor_round ticks s)
unfolding minor_round
minor_round-Swept ticks s r now h =
    sweep-Swept ticks (minor (add64 s.tx_mi_wheel 1 % 50)) (minor_tick s)
      (emptied-Ring _ r.armed (Ticks-minor_tick s r.ticks (omega arith)) refl refl
        (λ j i p ne. Placed-minor_tick s j i r.ticks p ne))
      now (r.armed.bounded (minor (add64 s.tx_mi_wheel 1 % 50)))

pub major_round-Swept :
    (ticks : ℕ) (s : TimerRing)
    → Ring s
    → s.tx_ticks ≡ ticks
    → ticks < s.tx_mi_tick + 15
    → s.tx_ma_tick + 750 ≤ ticks
    → Swept (major_tick s) (major_round ticks s)
unfolding major_round
major_round-Swept ticks s r now caught h =
    sweep-Swept ticks (major (add64 s.tx_ma_wheel 1 % 60)) (major_tick s)
      (emptied-Ring _ r.armed (Ticks-major_tick s r.ticks (omega arith) (omega arith)) refl refl
        (λ j i p ne. Placed-major_tick s j i r.ticks p ne))
      now (r.armed.bounded (major (add64 s.tx_ma_wheel 1 % 60)))

abbrev pub slow_tick : ℕ → TimerRing → TimerRing
slow_tick ticks s = record s { tx_st_tick = ticks }

pub slow_sweep-Swept :
    (ticks : ℕ) (s : TimerRing)
    → Ring s
    → s.tx_ticks ≡ ticks
    → ticks < s.tx_ma_tick + 750
    → Swept (slow_tick ticks s) (sweep ticks slow (slow_tick ticks s))
slow_sweep-Swept ticks s r now caught =
    sweep-Swept ticks slow (slow_tick ticks s)
      (emptied-Ring slow r.armed (stamp r.ticks) refl refl place) now (r.armed.bounded slow)
  where
    stamp : Ticks s → Ticks (slow_tick ticks s)
    stamp t = omega arith

    place :
        (j : Slot) (i : ℕ) → Placed s j i → slot_eq j slow ≡ false → Placed (slow_tick ticks s) j i
    place (minor w) i p ne = p
    place (major w) i p ne = p
    place slow i p ne = cc
