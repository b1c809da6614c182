-- ===== src/Loop/Phony.antt =====
-- The phony task in the queue of tx_loop.cpp: how far from the head it is, and how calls and rounds
-- move it.
use libtx.Common.{ℕ, suc, ◌≤◌, ◌≡◌, refl, ap, true, false, List, [], ◌∷◌, arith}
use libtx.Loop.{TxTask, Ref, task, phony, tailer, list_remove, insert_before_tailer}
use libtx.Loop.Queues.{has, ref_eq_refl, ends_tailer, after_phony, any_busy, count_busy}

-- The number of elements in front of the phony task, or of all if there is none.
abbrev pub before_phony : List Ref → ℕ
before_phony [] = 0
before_phony (phony ∷ xs) = 0
before_phony (task p ∷ xs) = suc (before_phony xs)
before_phony (tailer ∷ xs) = suc (before_phony xs)

pub remove-absent : (r : Ref) (xs : List Ref) → has r xs ≡ false → list_remove r xs ≡ xs
unfolding list_remove
remove-absent r [] h = refl
remove-absent r (x ∷ xs) h = ground (arith, remove-absent r xs)

pub remove-head : (r : Ref) (xs : List Ref) → has r xs ≡ false → list_remove r (r ∷ xs) ≡ xs
unfolding list_remove
remove-head r xs h = ground (arith, remove-absent r xs h, ref_eq_refl r)

module _ (m : ℕ → TxTask) where
  pub any_busy-insert_phony :
      (xs : List Ref) → any_busy m (insert_before_tailer phony xs) ≡ any_busy m xs
  unfolding insert_before_tailer
  any_busy-insert_phony [] = refl
  any_busy-insert_phony (task p ∷ xs) = ground (arith, any_busy-insert_phony xs)
  any_busy-insert_phony (phony ∷ xs) = any_busy-insert_phony xs
  any_busy-insert_phony (tailer ∷ xs) = refl

  pub count_busy-insert_phony :
      (xs : List Ref) → count_busy m (insert_before_tailer phony xs) ≡ count_busy m xs
  unfolding insert_before_tailer
  count_busy-insert_phony [] = refl
  count_busy-insert_phony (task p ∷ xs) = omega (arith, count_busy-insert_phony xs)
  count_busy-insert_phony (phony ∷ xs) = omega (arith, count_busy-insert_phony xs)
  count_busy-insert_phony (tailer ∷ xs) = omega arith

  pub after-insert_phony :
      (xs : List Ref)
      → ends_tailer xs ≡ true
      → has phony xs ≡ false
      → any_busy m (after_phony (insert_before_tailer phony xs)) ≡ false
  unfolding insert_before_tailer
  after-insert_phony [] e h = refl
  after-insert_phony (task p ∷ xs) e h = after-insert_phony xs e h
  after-insert_phony (phony ∷ xs) e h = cc
  after-insert_phony (tailer ∷ []) e h = refl
  after-insert_phony (tailer ∷ x ∷ xs) e h = cc

  pub count_busy-zero : (xs : List Ref) → any_busy m xs ≡ false → count_busy m xs ≡ 0
  count_busy-zero [] h = refl
  count_busy-zero (x ∷ xs) h = ground (arith, count_busy-zero xs)

pub ends_tailer-insert_phony :
    (xs : List Ref) → ends_tailer xs ≡ true → ends_tailer (insert_before_tailer phony xs) ≡ true
unfolding insert_before_tailer
ends_tailer-insert_phony [] e = e
ends_tailer-insert_phony (task p ∷ xs) e = ends_tailer-insert_phony xs e
ends_tailer-insert_phony (phony ∷ xs) e = ends_tailer-insert_phony xs e
ends_tailer-insert_phony (tailer ∷ xs) e = e

-- A task that leaves the queue brings the phony task forward, if it stood in front of it.
pub before_phony-remove :
    (p : ℕ) (xs : List Ref) → before_phony (list_remove (task p) xs) ≤ before_phony xs
unfolding list_remove
before_phony-remove p [] = omega arith
before_phony-remove p (task q ∷ xs) = ground (arith, before_phony-remove p xs)
before_phony-remove p (phony ∷ xs) = omega arith
before_phony-remove p (tailer ∷ xs) = omega (arith, before_phony-remove p xs)

-- A task that comes in does not stand in front of it.
pub before_phony-insert :
    (p : ℕ) (xs : List Ref)
    → ends_tailer xs ≡ true
    → has phony xs ≡ true
    → before_phony (insert_before_tailer (task p) xs) ≡ before_phony xs
unfolding insert_before_tailer
before_phony-insert p [] e h = refl
before_phony-insert p (task q ∷ xs) e h = ap suc (before_phony-insert p xs e h)
before_phony-insert p (phony ∷ xs) e h = refl
before_phony-insert p (tailer ∷ []) e h = cc
before_phony-insert p (tailer ∷ x ∷ xs) e h = cc
