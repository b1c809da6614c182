-- ===== src/Stack.antt =====
-- The task stacks of tx_loop.cpp and include/tx_loop.h: calls that wait for one another, run by one
-- scheduled task.
--
-- `TaskStack` is the `tx_task_stack_t` together with the loop of its task. A function and its context
-- are numbers, and `none` is NULL. A function that may fail an `assert`, which ends the program,
-- returns an Option.
pub mod Callable
pub mod Frames
pub mod Nesting
mod Tests
use libtx.Common.{
  ℕ, zero, suc, ◌+◌, ◌-◌, Option, none, some, Bool, true, false, ltb, ◌&&◌, if◌then◌else◌, update,
}
use libtx.Common.Int.{ℤ, pos}
use libtx.Loop.{TxLoop, tx_task_init, tx_task_active, tx_task_drop}

abbrev pub max_stack_depth : ℕ
max_stack_depth = 10

-- STACK_WAIT_VALUE, STACK_NONE_VALUE and STACK_CODE_VALUE.
pub data StackFlag : Type 0 where
  wait_value : StackFlag
  none_value : StackFlag
  code_value : StackFlag

pub record TaskBall : Type 0 where
  pub tx_uflag : ℕ
  pub tx_data : Option ℕ
  pub tx_call : Option ℕ

pub record TaskStack : Type 0 where
  pub tx_top : ℕ
  pub tx_flag : StackFlag
  pub tx_code : ℤ
  pub tx_uflag : ℕ
  pub tx_sched : ℕ
  pub tx_balls : ℕ → TaskBall
  pub loop : TxLoop

-- `ball->tx_data = NULL; ball->tx_call = NULL`.
abbrev pub cleared : TaskBall → TaskBall
cleared b = record b { tx_data = none; tx_call = none }

-- `stack` is the address of the stack, `callback` that of `_tx_task_stack_callback`. The balls and the
-- flags stay as they are in memory.
unfoldable pub tx_task_stack_init : (stack callback : ℕ) → TaskStack → TaskStack
tx_task_stack_init stack callback s = record s {
  loop = tx_task_init s.tx_sched callback stack s.loop;
  tx_top = 0;
}

unfoldable pub tx_task_stack_push : (call ctx : ℕ) → TaskStack → Option TaskStack
tx_task_stack_push call ctx s =
    if ltb (s.tx_top + 1) max_stack_depth
    then some (record s {
      tx_top = s.tx_top + 1;
      tx_flag = wait_value;
      tx_balls =
          update s.tx_balls s.tx_top
            (record { tx_uflag = s.tx_uflag; tx_data = some ctx; tx_call = some call });
      tx_uflag = 0;
    })
    else none

-- The stack without its top ball, which is cleared.
abbrev pub less_ball : StackFlag → ℤ → TaskStack → TaskStack
less_ball flag code s =
    let top = s.tx_top - 1 in
    record s {
      tx_top = top;
      tx_balls = update s.tx_balls top (cleared (s.tx_balls top));
      tx_uflag = (s.tx_balls top).tx_uflag;
      tx_flag = flag;
      tx_code = code;
    }

-- What `tx_task_stack_pop0` and `tx_task_stack_pop1` share: the top ball is taken off, and there is
-- one below it.
unfoldable pub pop_ball : StackFlag → ℤ → TaskStack → Option TaskStack
pop_ball flag code s = if ltb 0 (s.tx_top - 1) then some (less_ball flag code s) else none

unfoldable pub tx_task_stack_pop0 : TaskStack → Option TaskStack
unfolding pop_ball
tx_task_stack_pop0 s = pop_ball none_value (pos 0) s

unfoldable pub tx_task_stack_pop1 : ℤ → TaskStack → Option TaskStack
unfolding pop_ball
tx_task_stack_pop1 code s = pop_ball code_value code s

-- `for (top = 1; top < s->tx_top; top++)`.
unfoldable pub clear_above : ℕ → (ℕ → TaskBall) → ℕ → TaskBall
clear_above top balls i = if ltb 0 i && ltb i top then cleared (balls i) else balls i

unfoldable pub tx_task_stack_raise : ℕ → TaskStack → Option TaskStack
unfolding clear_above
tx_task_stack_raise reason s =
    if ltb 0 s.tx_top
    then some (record s {
      tx_balls = clear_above s.tx_top s.tx_balls;
      loop = tx_task_active (some s.tx_sched) reason s.loop;
      tx_uflag = (s.tx_balls 0).tx_uflag;
      tx_flag = none_value;
      tx_code = pos 0;
      tx_top = 1;
    })
    else none

unfoldable pub tx_task_stack_drop : TaskStack → TaskStack
tx_task_stack_drop s = record s { loop = tx_task_drop (some s.tx_sched) s.loop; tx_top = 0 }

-- `ball->tx_call (ball->tx_data, s)`: a jump to NULL ends the program.
abbrev pub jump : (ℕ → Option ℕ → TaskStack → TaskStack) → TaskBall → TaskStack → Option TaskStack
jump run b s = elim b.tx_call [ none ↦ none | some f ↦ some (run f b.tx_data s) ]

-- `_tx_task_stack_callback`; `run` is what the program's functions do.
unfoldable pub tx_task_stack_callback :
    (ℕ → Option ℕ → TaskStack → TaskStack) → TaskStack → Option TaskStack
tx_task_stack_callback run s =
    if ltb 0 s.tx_top then jump run (s.tx_balls (s.tx_top - 1)) s else none
