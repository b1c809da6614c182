-- ===== src/Stack/Callable.antt =====
-- What the scheduled task of a stack (tx_loop.cpp) finds to call.
use libtx.Common.{
  ℕ, zero, suc, ◌-◌, ◌<◌, ◌≡◌, ◌≢◌, refl, Option, none, some, List, [], ◌∷◌, arith, ap, sym, ◌∙◌,
  length,
}
use libtx.Common.Int.{ℤ}
use libtx.Stack.{
  TaskBall, TaskStack, max_stack_depth, tx_task_stack_init, tx_task_stack_push, tx_task_stack_pop0,
  tx_task_stack_pop1, tx_task_stack_raise, tx_task_stack_drop, tx_task_stack_callback, jump,
}
use libtx.Stack.Frames.{
  frames_of, frames, map_frames, push_frame, pop_frame, raise_frame, bottom, push-frames,
  pop-frames, raise-frames, ltb-zero-suc,
}

-- Every frame has a function to call.
abbrev pub Callable : List TaskBall → Type 0
Callable [] = Unit {0}
Callable (b ∷ fs) = (b.tx_call ≢ none) × Callable fs

-- The stack is less deep than its array, and what it holds can be called.
pub record Sound (s : TaskStack) : Type 0 where
  pub bounded : length (frames s) < max_stack_depth
  pub callable : Callable (frames s)

-- A call of the program's on a stack.
pub data Op : TaskStack → TaskStack → Type 0 where
  init : {s : TaskStack} (stack callback : ℕ) → Op s (tx_task_stack_init stack callback s)
  push : {s t : TaskStack} (call ctx : ℕ) → tx_task_stack_push call ctx s ≡ some t → Op s t
  pop0 : {s t : TaskStack} → tx_task_stack_pop0 s ≡ some t → Op s t
  pop1 : {s t : TaskStack} (code : ℤ) → tx_task_stack_pop1 code s ≡ some t → Op s t
  raise : {s t : TaskStack} (reason : ℕ) → tx_task_stack_raise reason s ≡ some t → Op s t
  drop : {s : TaskStack} → Op s (tx_task_stack_drop s)
  set_uflag : {s : TaskStack} (u : ℕ) → Op s (record s { tx_uflag = u })

pub data Ops : TaskStack → TaskStack → Type 0 where
  no_op : {s : TaskStack} → Ops s s
  then_op : {s t u : TaskStack} → Ops s t → Op t u → Ops s u

abbrev Fits : List TaskBall → Type 0
Fits fs = (length fs < max_stack_depth) × Callable fs

push-Fits :
    (b : TaskBall) (fs gs : List TaskBall)
    → b.tx_call ≢ none
    → Fits fs
    → push_frame b fs ≡ some gs
    → Fits gs
push-Fits b fs gs ne h e = ground arith

pop-Fits : (fs gs : List TaskBall) → Fits fs → pop_frame fs ≡ some gs → Fits gs
pop-Fits [] gs h e = cc
pop-Fits (b ∷ []) gs h e = cc
pop-Fits (b ∷ c ∷ fs) gs h e = ground arith

bottom-Callable :
    (b : TaskBall) (fs : List TaskBall)
    → b.tx_call ≢ none
    → Callable fs
    → (bottom b fs).tx_call ≢ none
bottom-Callable b [] h k = h
bottom-Callable b (c ∷ fs) h k = bottom-Callable c fs k.0 k.1

raise-Fits : (fs gs : List TaskBall) → Fits fs → raise_frame fs ≡ some gs → Fits gs
raise-Fits [] gs h e = cc
raise-Fits (b ∷ fs) gs h e = ground (arith, bottom-Callable b fs h.1.0 h.1.1)

sound : {s : TaskStack} → Fits (frames s) → Sound s
sound h = record { bounded = h.0; callable = h.1 }

Op-Sound : {s t : TaskStack} → Op s t → Sound s → Sound t
unfolding tx_task_stack_init tx_task_stack_drop tx_task_stack_pop0 tx_task_stack_pop1
Op-Sound (init stack callback) v = record { bounded = omega arith; callable = tt }
Op-Sound (push {s = s} {t = t} call ctx e) v = sound (
    push-Fits _ (frames s) (frames t) (λ h. cc) (v.bounded, v.callable)
      (sym (push-frames call ctx s) ∙ ap map_frames e))
Op-Sound (pop0 {s = s} {t = t} e) v = sound (
    pop-Fits (frames s) (frames t) (v.bounded, v.callable)
      (sym (pop-frames _ _ s) ∙ ap map_frames e))
Op-Sound (pop1 {s = s} {t = t} code e) v = sound (
    pop-Fits (frames s) (frames t) (v.bounded, v.callable)
      (sym (pop-frames _ code s) ∙ ap map_frames e))
Op-Sound (raise {s = s} {t = t} reason e) v = sound (
    raise-Fits (frames s) (frames t) (v.bounded, v.callable)
      (sym (raise-frames reason s) ∙ ap map_frames e))
Op-Sound drop v = record { bounded = omega arith; callable = tt }
Op-Sound (set_uflag u) v = record { bounded = v.bounded; callable = v.callable }

pub Ops-Sound : {s t : TaskStack} → Ops s t → Sound s → Sound t
Ops-Sound no_op v = v
Ops-Sound (then_op r o) v = Op-Sound o (Ops-Sound r v)

pred_suc : (n : ℕ) → suc n - 1 ≡ n
pred_suc n = omega arith

jumps :
    (run : ℕ → Option ℕ → TaskStack → TaskStack) (b : TaskBall) (s : TaskStack)
    → b.tx_call ≢ none
    → jump run b s ≢ none
jumps run b s ne = ground arith

-- After any calls that start from a stack that is not too deep and has a function in every frame, and
-- that leave a frame on it, the scheduled task passes its assertion and finds a function to call.
pub callback-runs :
    (run : ℕ → Option ℕ → TaskStack → TaskStack) (s t : TaskStack)
    → Sound s
    → Ops s t
    → frames t ≢ []
    → tx_task_stack_callback run t ≢ none
unfolding tx_task_stack_callback
callback-runs run s t v r ne = go t.tx_top (Ops-Sound r v).callable ne
  where
    go :
        (n : ℕ)
        → Callable (frames_of n t.tx_balls)
        → frames_of n t.tx_balls ≢ []
        → tx_task_stack_callback run (record t { tx_top = n }) ≢ none
    go zero k h = absurd (h refl)
    go (suc n) k h = rw (ltb-zero-suc n, pred_suc n) (jumps run (t.tx_balls n) _ k.0)
