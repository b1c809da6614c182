-- ===== src/Timer/Firing.antt =====
-- The timers that a round of `tx_timer_polling` (tx_timer.cpp) fires.
use libtx.Common.{
  ℕ, ◌+◌, ◌%◌, ◌≤◌, ◌<◌, ◌^◌, ◌≡◌, refl, true, List, [], ◌∷◌, arith, ◌==◌, ltb, Bool-cases, inl,
  inr, ◌∙◌, sym, ap, subst,
}
use libtx.Timer.{TimerRing, TxTimer, Slot, minor, add64, expire, expire_each, sweep, minor_round}
use libtx.Timer.Wheel.{minor_tick, Placed-minor_tick, Ticks-minor_tick}
use libtx.Timer.Invariant.{has_timer, Ring}
use libtx.Timer.Expiry.{
  Kept, Bounded, emptied, expire-idle, expire-others, expire-Kept, expire-Ring,
}
use libtx.Timer.Rounds.{emptied-Ring}

-- A timer that a visit has made idle stays so.
idle_stays :
    (ticks p q : ℕ) (s : TimerRing)
    → ticks + 15 ≤ 2 ^ 31
    → (s.timers p).interval < 2 ^ 31
    → (s.timers q).interval < ticks + 15
    → (s.timers q).idle ≡ true
    → ((expire ticks p s).timers q).idle ≡ true
idle_stays ticks p q s small bound due e = elim (Bool-cases (q == p)) [
  | inl same ↦
      let f : q ≡ p = ground arith in
      let d : (s.timers p).interval < ticks + 15 =
        subst (λ x. (s.timers x).interval < ticks + 15) f due in
      rw f (expire-idle ticks p s bound small ∙ (ground arith))
  | inr other ↦ ap (λ (t : TxTimer). t.idle) (expire-others ticks p q s other) ∙ e
]

idle_stays_each :
    (ticks q : ℕ) (ps : List ℕ) (s : TimerRing)
    → Ring s
    → s.tx_ticks ≡ ticks
    → Bounded ps s
    → (s.timers q).interval < ticks + 15
    → (s.timers q).idle ≡ true
    → ((expire_each ticks ps s).timers q).idle ≡ true
unfolding expire_each
idle_stays_each ticks q [] s r now bound due e = e
idle_stays_each ticks q (p ∷ ps) s r now bound due e =
    let b = bound p (ground arith) in
    let small : ticks + 15 ≤ 2 ^ 31 = omega (arith, r.ticks.small) in
    let k = expire-Kept ticks p s now small b in
    idle_stays_each ticks q ps (expire ticks p s) (expire-Ring ticks p s r now b) (k.clock ∙ now)
      (λ a h. omega (arith, k.times a, bound a (ground arith))) (omega (arith, k.times q))
      (idle_stays ticks p q s small b due e)

-- Every timer of the list that is due within 15 ms has been made idle.
pub expire_each-fires :
    (ticks q : ℕ) (ps : List ℕ) (s : TimerRing)
    → Ring s
    → s.tx_ticks ≡ ticks
    → Bounded ps s
    → has_timer q ps ≡ true
    → (s.timers q).interval < ticks + 15
    → ((expire_each ticks ps s).timers q).idle ≡ true
unfolding expire_each
expire_each-fires ticks q [] s r now bound inside due = cc
expire_each-fires ticks q (p ∷ ps) s r now bound inside due = elim (Bool-cases (p == q)) [
  | inl same ↦
      let f : p ≡ q = ground arith in
      let hit : ((expire ticks p s).timers p).idle ≡ true =
        expire-idle ticks p s b small ∙ due_now f in
      next (subst (λ x. ((expire ticks p s).timers x).idle ≡ true) f hit)
  | inr other ↦
      expire_each-fires ticks q ps (expire ticks p s) ring clock rest (ground arith)
        (omega (arith, k.times q))
]
  where
    b : (s.timers p).interval < 2 ^ 31
    b = bound p (ground arith)

    small : ticks + 15 ≤ 2 ^ 31
    small = omega (arith, r.ticks.small)

    k : Kept s (expire ticks p s)
    k = expire-Kept ticks p s now small b

    ring : Ring (expire ticks p s)
    ring = expire-Ring ticks p s r now b

    clock : (expire ticks p s).tx_ticks ≡ ticks
    clock = k.clock ∙ now

    rest : Bounded ps (expire ticks p s)
    rest a h = omega (arith, k.times a, bound a (ground arith))

    due_now : p ≡ q → ltb (s.timers p).interval (ticks + 15) ≡ true
    due_now f =
        let d : (s.timers p).interval < ticks + 15 =
          subst (λ x. (s.timers x).interval < ticks + 15) (sym f) due in
        ground arith

    next :
        ((expire ticks p s).timers q).idle ≡ true
        → ((expire_each ticks ps (expire ticks p s)).timers q).idle ≡ true
    next e =
        idle_stays_each ticks q ps (expire ticks p s) ring clock rest (omega (arith, k.times q)) e

-- The slot of the minor wheel that the next round visits.
abbrev pub next_minor : TimerRing → Slot
next_minor s = minor (add64 s.tx_mi_wheel 1 % 50)

-- In a ring that satisfies the invariant and whose clock is 15 ms or more ahead of the minor tick,
-- every timer of the slot that a round of the first loop visits is made idle: none is set again.
pub minor_round-fires :
    (ticks q : ℕ) (s : TimerRing)
    → Ring s
    → s.tx_ticks ≡ ticks
    → s.tx_mi_tick + 15 ≤ ticks
    → has_timer q (s.lists (next_minor s)) ≡ true
    → ((minor_round ticks s).timers q).idle ≡ true
unfolding minor_round sweep
minor_round-fires ticks q s r now h inside =
    expire_each-fires ticks q (s.lists (next_minor s)) (emptied (next_minor s) (minor_tick s))
      (emptied-Ring (next_minor s) r.armed (Ticks-minor_tick s r.ticks (omega arith)) refl refl
        (λ j i p ne. Placed-minor_tick s j i r.ticks p ne))
      now (r.armed.bounded (next_minor s)) inside
      (omega (
        arith,
        r.armed.placed (next_minor s) q inside,
        r.ticks.mi_count,
        r.ticks.mi_past,
        r.ticks.small,
      ))
