-- ===== src/Stack/Tests.antt =====
-- The theorems on task stacks at a stack with two frames: function 11 has called function 12.
use libtx.Common.{true, false, ℕ, ◌≡◌, ◌≢◌, refl, none, some, [], arith}
use libtx.Common.Int.{pos}
use libtx.Loop.{tx_loop_new}
use libtx.Stack.{
  TaskStack, none_value, tx_task_stack_init, tx_task_stack_push, tx_task_stack_pop0,
  tx_task_stack_pop1, pop_ball, tx_task_stack_raise, tx_task_stack_drop, tx_task_stack_callback,
}
use libtx.Stack.Frames.{frames, map_frames, push_frame, pop_frame, raise_frame, stack-refines}
use libtx.Stack.Nesting.{start, set_uflag, call-returns}
use libtx.Stack.Callable.{no_op, then_op, push, callback-runs}

abbrev fresh : TaskStack
fresh = record {
  tx_top = 0;
  tx_flag = none_value;
  tx_code = pos 0;
  tx_uflag = 5;
  tx_sched = 40;
  tx_balls = λ i. record { tx_uflag = 0; tx_data = none; tx_call = none };
  loop = tx_loop_new λ p. record {
    tx_flags = record { idle = true; busy = false; pending = false; user_mark = false };
    tx_reason = 0;
    tx_data = 0;
    tx_call = p;
  };
}

-- The stack after a push that succeeds.
abbrev must_push : ℕ → ℕ → TaskStack → TaskStack
must_push f ctx s = elim (tx_task_stack_push f ctx s) [ none ↦ s | some t ↦ t ]

abbrev one : TaskStack
one = must_push 11 1 fresh

abbrev two : TaskStack
two = must_push 12 2 one

stack-refines_example :
    (map_frames (tx_task_stack_push 13 3 two)
      ≡ push_frame
          (record { tx_uflag = two.tx_uflag; tx_data = some 3; tx_call = some 13 })
          (frames two))
    × (map_frames (tx_task_stack_pop0 two) ≡ pop_frame (frames two))
    × (map_frames (tx_task_stack_pop1 (pos 4) two) ≡ pop_frame (frames two))
    × (map_frames (tx_task_stack_raise 9 two) ≡ raise_frame (frames two))
    × (frames (tx_task_stack_drop two) ≡ [])
    × (frames (tx_task_stack_init 60 61 two) ≡ [])
stack-refines_example = stack-refines 13 3 9 60 61 (pos 4) two

call-returns_example :
    (d : TaskStack) × (pop_ball none_value (pos 0) (record two { tx_uflag = 8 }) ≡ some d)
    × (frames d ≡ frames one)
    × (d.tx_uflag ≡ one.tx_uflag)
unfolding tx_task_stack_push
call-returns_example =
    call-returns 12 2 none_value (pos 0) one two (record two { tx_uflag = 8 }) refl
      (set_uflag start 8) (λ e. cc)

callback-runs_example : tx_task_stack_callback (λ f ctx s. s) two ≢ none
unfolding tx_task_stack_push
callback-runs_example =
    callback-runs (λ f ctx s. s) fresh two (record { bounded = omega arith; callable = tt })
      (then_op (then_op no_op (push 11 1 refl)) (push 12 2 refl)) (λ e. cc)
