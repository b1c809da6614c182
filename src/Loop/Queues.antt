-- ===== src/Loop/Queues.antt =====
-- What the loop's invariant says of a queue, and how removal and insertion change it.
use libtx.Common.{
  ℕ, ◌+◌, ◌≤◌, ◌≡◌, refl, Bool, true, false, ◌||◌, List, [], ◌∷◌, arith, if◌then◌else◌, update,
  ==_refl,
}
use libtx.Loop.{TxTask, Ref, task, phony, tailer, ref_eq, list_remove, insert_before_tailer}

abbrev pub has : Ref → List Ref → Bool
has r [] = false
has r (x ∷ xs) = ref_eq x r || has r xs

-- No element stands twice in the queue.
abbrev pub Distinct : List Ref → Type 0
Distinct [] = Unit {0}
Distinct (x ∷ xs) = (has x xs ≡ false) × Distinct xs

-- The tailer is the last element, and no other.
abbrev pub ends_tailer : List Ref → Bool
ends_tailer [] = false
ends_tailer (tailer ∷ []) = true
ends_tailer (tailer ∷ x ∷ xs) = false
ends_tailer (task p ∷ xs) = ends_tailer xs
ends_tailer (phony ∷ xs) = ends_tailer xs

-- The elements behind the phony task: those that came since it last came round.
abbrev pub after_phony : List Ref → List Ref
after_phony [] = []
after_phony (phony ∷ xs) = xs
after_phony (task p ∷ xs) = after_phony xs
after_phony (tailer ∷ xs) = after_phony xs

abbrev pub is_busy : (ℕ → TxTask) → Ref → Bool
is_busy m (task p) = (m p).tx_flags.busy
is_busy m phony = false
is_busy m tailer = false

abbrev pub any_busy : (ℕ → TxTask) → List Ref → Bool
any_busy m [] = false
any_busy m (x ∷ xs) = is_busy m x || any_busy m xs

abbrev pub bit : Bool → ℕ
bit true = 1
bit false = 0

abbrev pub count_busy : (ℕ → TxTask) → List Ref → ℕ
count_busy m [] = 0
count_busy m (x ∷ xs) = bit (is_busy m x) + count_busy m xs

pub ref_eq_refl : (x : Ref) → ref_eq x x ≡ true
ref_eq_refl (task p) = ==_refl p
ref_eq_refl phony = refl
ref_eq_refl tailer = refl

pub eq_of_ref_eq : (x y : Ref) → ref_eq x y ≡ true → x ≡ y
eq_of_ref_eq (task p) (task q) e = ground arith
eq_of_ref_eq (task p) phony e = cc
eq_of_ref_eq (task p) tailer e = cc
eq_of_ref_eq phony (task q) e = cc
eq_of_ref_eq phony phony e = refl
eq_of_ref_eq phony tailer e = cc
eq_of_ref_eq tailer (task q) e = cc
eq_of_ref_eq tailer phony e = cc
eq_of_ref_eq tailer tailer e = refl

pub has-remove :
    (r x : Ref) (xs : List Ref)
    → has x (list_remove r xs) ≡ (if ref_eq r x then false else has x xs)
unfolding list_remove
has-remove r x [] = ground arith
has-remove r x (y ∷ xs) =
    ground (arith, has-remove r x xs, eq_of_ref_eq y r, eq_of_ref_eq y x, ref_eq_refl r)

pub has-insert :
    (r x : Ref) (xs : List Ref)
    → ends_tailer xs ≡ true
    → has x (insert_before_tailer r xs) ≡ (ref_eq r x || has x xs)
unfolding insert_before_tailer
has-insert r x [] e = cc
has-insert r x (task q ∷ xs) e = ground (arith, has-insert r x xs e)
has-insert r x (phony ∷ xs) e = ground (arith, has-insert r x xs e)
has-insert r x (tailer ∷ xs) e = refl

pub Distinct-remove : (r : Ref) (xs : List Ref) → Distinct xs → Distinct (list_remove r xs)
unfolding list_remove
Distinct-remove r [] d = tt
Distinct-remove r (x ∷ xs) d = ground (arith, has-remove r x xs, Distinct-remove r xs d.1)

pub Distinct-insert :
    (r : Ref) (xs : List Ref)
    → ends_tailer xs ≡ true
    → Distinct xs
    → has r xs ≡ false
    → Distinct (insert_before_tailer r xs)
unfolding insert_before_tailer
Distinct-insert r [] e d h = tt
Distinct-insert r (task q ∷ xs) e d h =
    ground (arith, has-insert r (task q) xs e, Distinct-insert r xs e d.1)
Distinct-insert r (phony ∷ xs) e d h =
    ground (arith, has-insert r phony xs e, Distinct-insert r xs e d.1)
Distinct-insert r (tailer ∷ xs) e d h = ground arith

pub ends_tailer-remove :
    (p : ℕ) (xs : List Ref) → ends_tailer xs ≡ true → ends_tailer (list_remove (task p) xs) ≡ true
unfolding list_remove
ends_tailer-remove p [] e = e
ends_tailer-remove p (task q ∷ xs) e = ground (arith, ends_tailer-remove p xs e)
ends_tailer-remove p (phony ∷ xs) e = ends_tailer-remove p xs e
ends_tailer-remove p (tailer ∷ []) e = refl
ends_tailer-remove p (tailer ∷ x ∷ xs) e = cc

pub ends_tailer-insert :
    (p : ℕ) (xs : List Ref)
    → ends_tailer xs ≡ true
    → ends_tailer (insert_before_tailer (task p) xs) ≡ true
unfolding insert_before_tailer
ends_tailer-insert p [] e = e
ends_tailer-insert p (task q ∷ xs) e = ends_tailer-insert p xs e
ends_tailer-insert p (phony ∷ xs) e = ends_tailer-insert p xs e
ends_tailer-insert p (tailer ∷ xs) e = e

pub after_phony-remove :
    (p : ℕ) (xs : List Ref)
    → after_phony (list_remove (task p) xs) ≡ list_remove (task p) (after_phony xs)
unfolding list_remove
after_phony-remove p [] = refl
after_phony-remove p (task q ∷ xs) = ground (arith, after_phony-remove p xs)
after_phony-remove p (phony ∷ xs) = refl
after_phony-remove p (tailer ∷ xs) = after_phony-remove p xs

pub after_phony-insert :
    (p : ℕ) (xs : List Ref)
    → ends_tailer xs ≡ true
    → after_phony (insert_before_tailer (task p) xs)
      ≡ insert_before_tailer (task p) (after_phony xs)
unfolding insert_before_tailer
after_phony-insert p [] e = refl
after_phony-insert p (task q ∷ xs) e = after_phony-insert p xs e
after_phony-insert p (phony ∷ xs) e = refl
after_phony-insert p (tailer ∷ []) e = refl
after_phony-insert p (tailer ∷ x ∷ xs) e = cc

pub has-after : (r : Ref) (xs : List Ref) → has r xs ≡ false → has r (after_phony xs) ≡ false
has-after r [] h = h
has-after r (task q ∷ xs) h = ground (arith, has-after r xs)
has-after r (phony ∷ xs) h = ground arith
has-after r (tailer ∷ xs) h = ground (arith, has-after r xs)

module _ (m : ℕ → TxTask) where
  pub any_busy-remove :
      (r : Ref) (xs : List Ref) → any_busy m (list_remove r xs) ≡ true → any_busy m xs ≡ true
  unfolding list_remove
  any_busy-remove r [] h = h
  any_busy-remove r (x ∷ xs) h = ground (arith, any_busy-remove r xs)

  pub any_busy-insert :
      (r : Ref) (xs : List Ref)
      → any_busy m (insert_before_tailer r xs) ≡ true
      → (is_busy m r || any_busy m xs) ≡ true
  unfolding insert_before_tailer
  any_busy-insert r [] h = cc
  any_busy-insert r (task q ∷ xs) h = ground (arith, any_busy-insert r xs)
  any_busy-insert r (phony ∷ xs) h = any_busy-insert r xs h
  any_busy-insert r (tailer ∷ xs) h = h

  pub any_busy-after : (xs : List Ref) → any_busy m (after_phony xs) ≡ true → any_busy m xs ≡ true
  any_busy-after [] h = h
  any_busy-after (task q ∷ xs) h = ground (arith, any_busy-after xs)
  any_busy-after (phony ∷ xs) h = h
  any_busy-after (tailer ∷ xs) h = any_busy-after xs h

  pub any_busy-count : (xs : List Ref) → any_busy m xs ≡ true → 1 ≤ count_busy m xs
  any_busy-count [] h = cc
  any_busy-count (x ∷ xs) h = ground (arith, any_busy-count xs)

  pub count_busy-remove :
      (r : Ref) (xs : List Ref) → count_busy m (list_remove r xs) ≤ count_busy m xs
  unfolding list_remove
  count_busy-remove r [] = omega arith
  count_busy-remove r (x ∷ xs) = ground (arith, count_busy-remove r xs)

  pub count_busy-insert :
      (r : Ref) (xs : List Ref)
      → count_busy m (insert_before_tailer r xs) ≤ bit (is_busy m r) + count_busy m xs
  unfolding insert_before_tailer
  count_busy-insert r [] = omega arith
  count_busy-insert r (task q ∷ xs) = omega (arith, count_busy-insert r xs)
  count_busy-insert r (phony ∷ xs) = omega (arith, count_busy-insert r xs)
  count_busy-insert r (tailer ∷ xs) = omega arith

  -- A change of a task that is not in the queue does not show in it.
  pub any_busy-update :
      (p : ℕ) (t : TxTask) (xs : List Ref)
      → has (task p) xs ≡ false
      → any_busy (update m p t) xs ≡ any_busy m xs
  any_busy-update p t [] h = refl
  any_busy-update p t (task q ∷ xs) h = ground (arith, any_busy-update p t xs)
  any_busy-update p t (phony ∷ xs) h = any_busy-update p t xs h
  any_busy-update p t (tailer ∷ xs) h = any_busy-update p t xs h

  pub count_busy-update :
      (p : ℕ) (t : TxTask) (xs : List Ref)
      → has (task p) xs ≡ false
      → count_busy (update m p t) xs ≡ count_busy m xs
  count_busy-update p t [] h = refl
  count_busy-update p t (task q ∷ xs) h = ground (arith, count_busy-update p t xs)
  count_busy-update p t (phony ∷ xs) h = omega (arith, count_busy-update p t xs h)
  count_busy-update p t (tailer ∷ xs) h = omega (arith, count_busy-update p t xs h)

  -- Nor does one that keeps the bit TASK_BUSY.
  pub any_busy-same :
      (p : ℕ) (t : TxTask) (xs : List Ref)
      → t.tx_flags.busy ≡ (m p).tx_flags.busy
      → any_busy (update m p t) xs ≡ any_busy m xs
  any_busy-same p t [] h = refl
  any_busy-same p t (task q ∷ xs) h = ground (arith, any_busy-same p t xs h)
  any_busy-same p t (phony ∷ xs) h = any_busy-same p t xs h
  any_busy-same p t (tailer ∷ xs) h = any_busy-same p t xs h

  pub count_busy-same :
      (p : ℕ) (t : TxTask) (xs : List Ref)
      → t.tx_flags.busy ≡ (m p).tx_flags.busy
      → count_busy (update m p t) xs ≡ count_busy m xs
  count_busy-same p t [] h = refl
  count_busy-same p t (task q ∷ xs) h = ground (arith, count_busy-same p t xs h)
  count_busy-same p t (phony ∷ xs) h = omega (arith, count_busy-same p t xs h)
  count_busy-same p t (tailer ∷ xs) h = omega (arith, count_busy-same p t xs h)
