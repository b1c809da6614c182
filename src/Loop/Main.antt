-- ===== src/Loop/Main.antt =====
-- `tx_loop_main` of tx_loop.cpp. The functions that the tasks point to (`tx_call`) are the
-- program's; they are the parameter `callback`, from the task that is called to its effect.
use libtx.Common.{
  ℕ, zero, suc, Bool, true, false, not, ◌||◌, some, List, [], ◌∷◌, ◌==◌, ◌%◌, if◌then◌else◌,
}
use libtx.Common.Int.{pos, inc, dec}
use libtx.Loop.{
  TxLoop, TaskFlags, Ref, task, phony, tailer, list_remove, insert_before_tailer, shift_left,
  flags_of, set_flags,
}

-- How one round of the `while` ends: the loop goes on, with the new `first_run`; it is left by
-- `break`; or it has called the `tx_call` of the tailer, which is NULL, or found no task at all.
pub data Turn : Type 0 where
  again : Bool → TxLoop → Turn
  leave : TxLoop → Turn
  crash : Turn

-- The round in which the phony task comes round.
unfoldable pub phony_round : TxLoop → TxLoop
unfolding shift_left
phony_round s = record s {
  tx_taskq = insert_before_tailer phony (list_remove phony s.tx_taskq);
  tx_actives = if s.tx_busy % 2 == 1 then s.tx_actives else pos 0;
  tx_busy = shift_left s.tx_busy;
  tx_upcount = inc s.tx_upcount;
}

abbrev ran_flags : TaskFlags → TaskFlags
ran_flags f = record { idle = true; busy = false; pending = f.pending; user_mark = false }

-- What is done to a task that has come to the head, up to the call.
unfoldable pub dequeue : ℕ → TxLoop → TxLoop
dequeue p s = set_flags p (ran_flags (flags_of s p)) (record s {
  tx_taskq = list_remove (task p) s.tx_taskq;
  tx_actives = if (flags_of s p).busy then dec s.tx_actives else s.tx_actives;
  tx_current = some p;
})

-- `unfinished` means that the fuel ran out.
pub data Run : Type 0 where
  finished : TxLoop → Run
  crashed : Run
  unfinished : Run

-- A round is followed by the next one, or by the end of the `while`.
unfoldable pub after_turn : (Bool → TxLoop → Run) → Turn → Run
after_turn next (again first t) = next first t
after_turn next (leave t) = finished t
after_turn next crash = crashed

-- `LIST_INSERT_BEFORE (&up->tx_tailer, &phony, entries)`, and the `LIST_REMOVE` at the end.
unfoldable pub enter : TxLoop → TxLoop
enter s = record s { tx_taskq = insert_before_tailer phony s.tx_taskq }

abbrev pub exit : Run → Run
exit (finished s) = finished (record s { tx_taskq = list_remove phony s.tx_taskq })
exit crashed = crashed
exit unfinished = unfinished

module _ (callback : ℕ → TxLoop → TxLoop) where
  unfoldable pub turn_at : List Ref → Bool → TxLoop → Turn
  unfolding phony_round dequeue
  turn_at [] first_run s = crash
  turn_at (tailer ∷ rest) first_run s = crash
  turn_at (phony ∷ rest) first_run s =
      let t = phony_round s in
      if t.tx_break then leave (record t { tx_break = false }) else again false t
  turn_at (task p ∷ rest) first_run s = again first_run (callback p (dequeue p s))

  unfoldable pub turn : Bool → TxLoop → Turn
  unfolding turn_at
  turn first_run s = turn_at s.tx_taskq first_run s

  unfoldable pub main_loop : ℕ → Bool → TxLoop → Run
  main_loop zero first_run s = unfinished
  main_loop (suc fuel) first_run s =
      let next = after_turn (main_loop fuel) (turn first_run s) in
      if not s.tx_stop || first_run then next else finished s

  unfoldable pub tx_loop_main : ℕ → TxLoop → Run
  unfolding main_loop enter
  tx_loop_main fuel s = exit (main_loop fuel true (enter s))
