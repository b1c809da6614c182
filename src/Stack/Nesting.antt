-- ===== src/Stack/Nesting.antt =====
-- Calls on a task stack (tx_loop.cpp) that return: what a caller finds when its callee has popped.
use libtx.Common.{
  ℕ, zero, suc, ◌-◌, ◌≡◌, ◌≢◌, refl, some, List, [], ◌∷◌, arith, ap, sym, ◌∙◌, ltb, true,
}
use libtx.Common.Int.{ℤ}
use libtx.Stack.{TaskBall, TaskStack, StackFlag, tx_task_stack_push, pop_ball, less_ball}
use libtx.Stack.Frames.{
  frames_of, frames, map_frames, push_frame, pop_frame, push-frames, pop-frames,
}

abbrev pub caller_frame : (call ctx : ℕ) → TaskStack → TaskBall
caller_frame call ctx s = record { tx_uflag = s.tx_uflag; tx_data = some ctx; tx_call = some call }

push_some : (b : TaskBall) (fs gs : List TaskBall) → push_frame b fs ≡ some gs → gs ≡ b ∷ fs
push_some b fs gs e = ground arith

pop_some : (b : TaskBall) (fs gs : List TaskBall) → pop_frame (b ∷ fs) ≡ some gs → gs ≡ fs
pop_some b [] gs e = cc
pop_some b (c ∷ fs) gs e = cc

pushed :
    (call ctx : ℕ) (s t : TaskStack)
    → tx_task_stack_push call ctx s ≡ some t
    → frames t ≡ caller_frame call ctx s ∷ frames s
pushed call ctx s t e =
    push_some (caller_frame call ctx s) (frames s) (frames t)
      (sym (push-frames call ctx s) ∙ ap map_frames e)

popped :
    (flag : StackFlag) (code : ℤ) (b : TaskBall) (fs : List TaskBall) (s t : TaskStack)
    → frames s ≡ b ∷ fs
    → pop_ball flag code s ≡ some t
    → frames t ≡ fs
popped flag code b fs s t f e =
    pop_some b fs (frames t) (sym (ap pop_frame f) ∙ sym (pop-frames flag code s) ∙ ap map_frames e)

-- What a function may do between its call and its pop: set the flag of the stack, and make calls
-- that return.
pub data Body : TaskStack → TaskStack → Type 0 where
  start : {s : TaskStack} → Body s s
  set_uflag : {s t : TaskStack} → Body s t → (u : ℕ) → Body s (record t { tx_uflag = u })
  call :
      {s t a b d : TaskStack} (f ctx : ℕ) (flag : StackFlag) (code : ℤ)
      → Body s t
      → tx_task_stack_push f ctx t ≡ some a
      → Body a b
      → pop_ball flag code b ≡ some d
      → Body s d

Body-frames : {s t : TaskStack} → Body s t → frames t ≡ frames s
Body-frames start = refl
Body-frames (set_uflag r u) = Body-frames r
Body-frames (call {t = t} {a = a} {b = b} {d = d} f ctx flag code r p q e) =
    popped flag code (caller_frame f ctx t) (frames t) b d (Body-frames q ∙ pushed f ctx t a p) e
    ∙ Body-frames r

head-frames_of :
    (n : ℕ) (balls : ℕ → TaskBall) (b c : TaskBall) (fs : List TaskBall)
    → frames_of n balls ≡ b ∷ c ∷ fs
    → (ltb 0 (n - 1) ≡ true) × (balls (n - 1) ≡ b)
head-frames_of zero balls b c fs e = cc
head-frames_of (suc zero) balls b c fs e = cc
head-frames_of (suc (suc n)) balls b c fs e = (
  ground arith,
  let here : balls (suc n) ≡ b = cc in
      let less : suc (suc n) - 1 ≡ suc n = omega arith in rw less here,
)

-- A pop of two frames or more succeeds, and gives back the flag that the frame keeps.
pop_two :
    (flag : StackFlag) (code : ℤ) (b c : TaskBall) (fs : List TaskBall) (s : TaskStack)
    → frames s ≡ b ∷ c ∷ fs
    → (d : TaskStack) × (pop_ball flag code s ≡ some d) × (d.tx_uflag ≡ b.tx_uflag)
unfolding pop_ball
pop_two flag code b c fs s e =
    let h = head-frames_of s.tx_top s.tx_balls b c fs e in
    (less_ball flag code s, rw h.0 refl, ap (λ (x : TaskBall). x.tx_uflag) h.1)

module _ (f ctx : ℕ) (flag : StackFlag) (code : ℤ) (s a b : TaskStack) where
  -- After a push on a stack that is not empty, whatever the callee does by setting the flag and by
  -- calls that return, its pop passes the assertion and leaves the frames and the flag `tx_uflag` of
  -- the caller as they were before the push.
  pub call-returns :
      tx_task_stack_push f ctx s ≡ some a
      → Body a b
      → frames s ≢ []
      → (d : TaskStack) × (pop_ball flag code b ≡ some d)
        × (frames d ≡ frames s)
        × (d.tx_uflag ≡ s.tx_uflag)
  call-returns p body ne = go (frames s) refl
    where
      go :
          (fs : List TaskBall)
          → frames s ≡ fs
          → (d : TaskStack) × (pop_ball flag code b ≡ some d)
            × (frames d ≡ frames s)
            × (d.tx_uflag ≡ s.tx_uflag)
      go [] e = absurd (ne e)
      go (c ∷ fs) e =
          let top = Body-frames body ∙ pushed f ctx s a p in
          let r =
            pop_two flag code (caller_frame f ctx s) c fs b
              (top ∙ ap (λ gs. caller_frame f ctx s ∷ gs) e) in
          (r.0, r.1, popped flag code (caller_frame f ctx s) (frames s) b r.0 top r.1, r.2)
