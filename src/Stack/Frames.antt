-- ===== src/Stack/Frames.antt =====
-- The stack of tx_loop.cpp as a sequence of frames, the top one first.
use libtx.Common.{
  ℕ, zero, suc, ◌+◌, ◌-◌, ◌≤◌, ◌<◌, ◌≡◌, refl, Option, none, some, List, [], ◌∷◌, arith, length,
  update, true, ap, sym, ltb, if◌then◌else◌, Bool-cases, inl, inr, ==_refl,
}
use native.Mathlib.Numerals.{add-one}
use libtx.Common.Int.{ℤ, pos}
use libtx.Stack.{
  TaskBall, TaskStack, StackFlag, none_value, code_value, tx_task_stack_init, max_stack_depth,
  tx_task_stack_push, pop_ball, cleared, tx_task_stack_pop0, tx_task_stack_pop1, clear_above,
  tx_task_stack_raise, tx_task_stack_drop,
}

abbrev pub frames_of : ℕ → (ℕ → TaskBall) → List TaskBall
frames_of zero balls = []
frames_of (suc n) balls = balls n ∷ frames_of n balls

abbrev pub frames : TaskStack → List TaskBall
frames s = frames_of s.tx_top s.tx_balls

-- A ball above the frames is no part of them.
frames_of-update :
    (n i : ℕ) (balls : ℕ → TaskBall) (b : TaskBall)
    → n ≤ i
    → frames_of n (update balls i b) ≡ frames_of n balls
frames_of-update zero i balls b h = refl
frames_of-update (suc n) i balls b h = ground (arith, frames_of-update n i balls b)

frames_of-clear_above :
    (n k : ℕ) (balls : ℕ → TaskBall) → n ≤ 1 → frames_of n (clear_above k balls) ≡ frames_of n balls
unfolding clear_above
frames_of-clear_above zero k balls h = refl
frames_of-clear_above (suc zero) k balls h = refl
frames_of-clear_above (suc (suc n)) k balls h = absurd (omega arith)

length-frames_of : (n : ℕ) (balls : ℕ → TaskBall) → length (frames_of n balls) ≡ n
length-frames_of zero balls = refl
length-frames_of (suc n) balls = ap suc (length-frames_of n balls)

abbrev pub map_frames : Option TaskStack → Option (List TaskBall)
map_frames none = none
map_frames (some s) = some (frames s)

-- The frames after a call, or `none` where the program ends.
abbrev pub push_frame : TaskBall → List TaskBall → Option (List TaskBall)
push_frame b fs = if ltb (length fs + 1) max_stack_depth then some (b ∷ fs) else none

abbrev pub pop_frame : List TaskBall → Option (List TaskBall)
pop_frame [] = none
pop_frame (b ∷ []) = none
pop_frame (b ∷ c ∷ fs) = some (c ∷ fs)

abbrev pub bottom : TaskBall → List TaskBall → TaskBall
bottom b [] = b
bottom b (c ∷ fs) = bottom c fs

abbrev pub raise_frame : List TaskBall → Option (List TaskBall)
raise_frame [] = none
raise_frame (b ∷ fs) = some (bottom b fs ∷ [])

pub ltb-zero-suc : (n : ℕ) → ltb 0 (suc n) ≡ true
ltb-zero-suc n = ground arith

less_one : (n : ℕ) → suc (suc n) - 1 ≡ suc n
less_one n = omega arith

off : (i j : ℕ) (balls : ℕ → TaskBall) (b : TaskBall) → j < i → update balls i b j ≡ balls j
off i j balls b h = ground arith

pub push-frames :
    (call ctx : ℕ) (s : TaskStack)
    → map_frames (tx_task_stack_push call ctx s)
      ≡ push_frame
          (record { tx_uflag = s.tx_uflag; tx_data = some ctx; tx_call = some call })
          (frames s)
unfolding tx_task_stack_push
push-frames call ctx s =
    rw (length-frames_of s.tx_top s.tx_balls)
      (elim (Bool-cases (ltb (s.tx_top + 1) max_stack_depth)) [
        | inl e ↦ rw (e, add-one) (ap some (grown s.tx_top s.tx_balls _))
        | inr e ↦ rw e refl
      ])
  where
    grown :
        (n : ℕ) (balls : ℕ → TaskBall) (b : TaskBall)
        → frames_of (suc n) (update balls n b) ≡ b ∷ frames_of n balls
    grown n balls b = rw (frames_of-update n n balls b (omega arith), ==_refl n) refl

pub pop-frames :
    (flag : StackFlag) (code : ℤ) (s : TaskStack)
    → map_frames (pop_ball flag code s) ≡ pop_frame (frames s)
unfolding pop_ball
pop-frames flag code s = go s.tx_top
  where
    go :
        (n : ℕ)
        → map_frames (pop_ball flag code (record s { tx_top = n }))
          ≡ pop_frame (frames_of n s.tx_balls)
    go zero = refl
    go (suc zero) = refl
    go (suc (suc n)) =
        rw
          (
            less_one n,
            ltb-zero-suc n,
            frames_of-update n (suc n) s.tx_balls (cleared (s.tx_balls (suc n))) (omega arith),
          )
          (ap (λ b. some (b ∷ frames_of n s.tx_balls)) (off (suc n) n s.tx_balls _ (omega arith)))

bottom-frames : (n : ℕ) (balls : ℕ → TaskBall) → bottom (balls n) (frames_of n balls) ≡ balls 0
bottom-frames zero balls = refl
bottom-frames (suc n) balls = bottom-frames n balls

pub raise-frames :
    (reason : ℕ) (s : TaskStack)
    → map_frames (tx_task_stack_raise reason s) ≡ raise_frame (frames s)
unfolding tx_task_stack_raise
raise-frames reason s = go s.tx_top
  where
    go :
        (n : ℕ)
        → map_frames (tx_task_stack_raise reason (record s { tx_top = n }))
          ≡ raise_frame (frames_of n s.tx_balls)
    go zero = refl
    go (suc n) = rw (ltb-zero-suc n) (ap (λ b. some (b ∷ [])) (sym (bottom-frames n s.tx_balls)))

-- On the sequence of frames, a push puts one frame on top if there is room, both pops take the top one
-- off if another is below it, `tx_task_stack_raise` leaves the bottom one if there is one, and a drop
-- and `tx_task_stack_init` leave none; an assertion fails exactly where the condition does not hold.
pub stack-refines :
    (call ctx reason stack callback : ℕ) (code : ℤ) (s : TaskStack)
    → (map_frames (tx_task_stack_push call ctx s)
        ≡ push_frame
            (record { tx_uflag = s.tx_uflag; tx_data = some ctx; tx_call = some call })
            (frames s))
      × (map_frames (tx_task_stack_pop0 s) ≡ pop_frame (frames s))
      × (map_frames (tx_task_stack_pop1 code s) ≡ pop_frame (frames s))
      × (map_frames (tx_task_stack_raise reason s) ≡ raise_frame (frames s))
      × (frames (tx_task_stack_drop s) ≡ [])
      × (frames (tx_task_stack_init stack callback s) ≡ [])
unfolding tx_task_stack_pop0 tx_task_stack_pop1 tx_task_stack_drop tx_task_stack_init
stack-refines call ctx reason stack callback code s = (
  push-frames call ctx s,
  pop-frames none_value (pos 0) s,
  pop-frames code_value code s,
  raise-frames reason s,
  refl,
  refl,
)
