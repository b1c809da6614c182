-- ===== src/Timer/Invariant.antt =====
-- The invariant of a timer ring (tx_timer.cpp).
use libtx.Common.{
  ℕ, ◌<◌, ◌^◌, ◌≡◌, refl, Bool, true, false, ◌||◌, List, [], ◌∷◌, arith, ◌==◌, if◌then◌else◌,
  update, inl, inr, ◌∙◌, sym, ap, ◌⊎◌, ==_refl,
}
use libtx.Loop.{TxLoop}
use libtx.Timer.{
  TimerRing, TxTimer, Slot, minor, major, slow, slot_eq, remove_timer, unlink_timer, insert_timer,
}
use libtx.Timer.Wheel.{Ticks, Placed}

abbrev pub has_timer : ℕ → List ℕ → Bool
has_timer p [] = false
has_timer p (x ∷ xs) = (x == p) || has_timer p xs

pub has_timer-remove :
    (p q : ℕ) (xs : List ℕ)
    → has_timer q (remove_timer p xs) ≡ (if p == q then false else has_timer q xs)
unfolding remove_timer
has_timer-remove p q [] = ground arith
has_timer-remove p q (x ∷ xs) = ground (arith, has_timer-remove p q xs)

pub slot_eq_refl : (k : Slot) → slot_eq k k ≡ true
slot_eq_refl (minor w) = ==_refl w
slot_eq_refl (major w) = ==_refl w
slot_eq_refl slow = refl

pub eq_of_slot_eq : (j k : Slot) → slot_eq j k ≡ true → j ≡ k
eq_of_slot_eq (minor v) (minor w) e = ground arith
eq_of_slot_eq (minor v) (major w) e = cc
eq_of_slot_eq (minor v) slow e = cc
eq_of_slot_eq (major v) (minor w) e = cc
eq_of_slot_eq (major v) (major w) e = ground arith
eq_of_slot_eq (major v) slow e = cc
eq_of_slot_eq slow (minor w) e = cc
eq_of_slot_eq slow (major w) e = cc
eq_of_slot_eq slow slow e = refl

-- The timers in the lists of the ring: each is armed, is in one list only, and that list is a right
-- place for it. It is due before the end of the 31 bits.
pub record Armed (s : TimerRing) : Type 0 where
  pub placed :
      (k : Slot) (p : ℕ) → has_timer p (s.lists k) ≡ true → Placed s k (s.timers p).interval
  pub live : (k : Slot) (p : ℕ) → has_timer p (s.lists k) ≡ true → (s.timers p).idle ≡ false
  pub bounded : (k : Slot) (p : ℕ) → has_timer p (s.lists k) ≡ true → (s.timers p).interval < 2 ^ 31
  pub one_list :
      (j k : Slot) (p : ℕ) → has_timer p (s.lists j) ≡ true → has_timer p (s.lists k) ≡ true → j ≡ k

pub record Ring (s : TimerRing) : Type 0 where
  pub ticks : Ticks s
  pub armed : Armed s

-- The timer is in no list.
abbrev pub Unlinked : ℕ → TimerRing → Type 0
Unlinked p s = (k : Slot) → has_timer p (s.lists k) ≡ false

pub idle-Unlinked : {s : TimerRing} (p : ℕ) → Armed s → (s.timers p).idle ≡ true → Unlinked p s
idle-Unlinked p v e k = ground (arith, v.live k p)

pub unlink-Unlinked : (p : ℕ) (s : TimerRing) → Unlinked p (unlink_timer p s)
unfolding unlink_timer
unlink-Unlinked p s k = has_timer-remove p p (s.lists k) ∙ ground arith

-- A timer that is in no list may be changed in any way.
pub change-Armed :
    {s : TimerRing} (p : ℕ) (t : TxTimer)
    → Armed s
    → Unlinked p s
    → Armed (record s { timers = update s.timers p t })
change-Armed {s} p t v u = record {
  placed = λ k q h. subst_at k q h (λ x. Placed s k x.interval) (v.placed k q h);
  live = λ k q h. subst_at k q h (λ x. x.idle ≡ false) (v.live k q h);
  bounded = λ k q h. subst_at k q h (λ x. x.interval < 2 ^ 31) (v.bounded k q h);
  one_list = v.one_list;
}
  where
    subst_at :
        (k : Slot) (q : ℕ)
        → has_timer q (s.lists k) ≡ true
        → (P : TxTimer → Type 0) → P (s.timers q)
        → P (update s.timers p t q)
    subst_at k q h P x = let ne : (q == p) ≡ false = ground (arith, u k) in rw ne x

-- A timer that has just been put into the list `k`.
pub inserted-Armed :
    {s : TimerRing} (k : Slot) (p : ℕ)
    → Armed s
    → Unlinked p s
    → Placed s k (s.timers p).interval
    → (s.timers p).idle ≡ false
    → (s.timers p).interval < 2 ^ 31
    → Armed (insert_timer k p s)
unfolding insert_timer
inserted-Armed {s} k p v u here live small = record {
  placed = λ j q h. elim (found j q h) [ inl (e, f) ↦ rw (e, f) here | inr old ↦ v.placed j q old ];
  live = λ j q h. elim (found j q h) [ inl (e, f) ↦ rw e live | inr old ↦ v.live j q old ];
  bounded = λ j q h. elim (found j q h) [ inl (e, f) ↦ rw e small | inr old ↦ v.bounded j q old ];
  one_list = λ i j q h h'. elim (found i q h) [
    | inl (e, f) ↦ elim (found j q h') [
      | inl (e', f') ↦ f ∙ sym f'
      | inr old' ↦ absurd (clash q j e old')
    ]
    | inr old ↦ elim (found j q h') [
      | inl (e', f') ↦ absurd (clash q i e' old)
      | inr old' ↦ v.one_list i j q old old'
    ]
  ];
}
  where
    clash : (q : ℕ) (j : Slot) → q ≡ p → has_timer q (s.lists j) ≡ true → ⊥
    clash q j e old =
        let f : true ≡ false = sym old ∙ ap (λ x. has_timer x (s.lists j)) e ∙ u j in cc

    found :
        (j : Slot) (q : ℕ)
        → has_timer q (if slot_eq j k then p ∷ s.lists j else s.lists j) ≡ true
        → ((q ≡ p) × (j ≡ k)) ⊎ (has_timer q (s.lists j) ≡ true)
    found j q h = ground (arith, eq_of_slot_eq j k)

-- Neither the ticks nor the places depend on the lists, the timers or the loop.
pub same-Ticks :
    {s : TimerRing} (lists : Slot → List ℕ) (timers : ℕ → TxTimer) (loop : TxLoop)
    → Ticks s
    → Ticks (record s { lists = lists; timers = timers; loop = loop })
same-Ticks lists timers loop t = omega arith

pub same-Placed :
    (s : TimerRing) (lists : Slot → List ℕ) (timers : ℕ → TxTimer) (loop : TxLoop) (k : Slot)
    (i : ℕ)
    → Placed s k i
    → Placed (record s { lists = lists; timers = timers; loop = loop }) k i
same-Placed s lists timers loop (minor w) i p = p
same-Placed s lists timers loop (major w) i p = p
same-Placed s lists timers loop slow i p = p

-- Timers leave lists without harm to the rest.
pub fewer-Armed :
    {s : TimerRing} (lists : Slot → List ℕ)
    → Armed s
    → ((k : Slot) (p : ℕ) → has_timer p (lists k) ≡ true → has_timer p (s.lists k) ≡ true)
    → Armed (record s { lists = lists })
fewer-Armed {s} lists v less = record {
  placed = λ k q h. same-Placed s lists s.timers s.loop k _ (v.placed k q (less k q h));
  live = λ k q h. v.live k q (less k q h);
  bounded = λ k q h. v.bounded k q (less k q h);
  one_list = λ j k q h h'. v.one_list j k q (less j q h) (less k q h');
}

pub unlink-Armed : {s : TimerRing} (p : ℕ) → Armed s → Armed (unlink_timer p s)
unfolding unlink_timer
unlink-Armed {s} p v =
    fewer-Armed (λ k. remove_timer p (s.lists k)) v
      (λ k q h. ground (arith, has_timer-remove p q (s.lists k)))
