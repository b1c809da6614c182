-- ===== src/Pipling.antt =====
-- `tx_pipling_t::pipling` and `update_netcat` of netcat.cpp: what comes from one descriptor is passed
-- on to another.
--
-- `buf` is what the buffer holds in its first `len` bytes. What is to arrive is a list, and a `recv`
-- after it would block. `write` is `tx_outcb_write` with the poller and what the system answers, and
-- `write_file` is WriteFile, with `none` for FALSE; they act on the state `P`, like the poller.
-- `came` and `out` are all the bytes that have been received so far, and that those calls have taken of
-- what they were handed.
pub mod Both
pub mod Conserved
pub mod Ending
pub mod Thread
pub mod ThreadEnds
pub mod Windows
mod Tests
use libtx.Common.{
  ℕ, zero, suc, ◌+◌, ◌-◌, Bool, true, false, not, ◌&&◌, ◌||◌, ◌==◌, ltb, Option, none, some, List,
  [], ◌∷◌, ◌++◌, length, take, drop, if◌then◌else◌,
}
use libtx.Common.Int.{ℤ, pos, negsuc}
use libtx.Loop.{TxLoop, tx_loop_stop}
use libtx.Aiocb.{Net, PollOps, flags_at, generic_active_in, generic_active_out, tx_aincb_update}

pub data Received : Type 0 where
  bytes : List ℕ → Received
  refused : (again : Bool) → Received

pub record Pipe (P : Type 0) : Type 0 where
  pub eof : Bool
  pub off : ℕ
  pub buf : List ℕ
  pub net : Net P
  pub arriving : List Received
  pub came : List ℕ
  pub out : List ℕ

-- The loop is left as its condition fails, at a `return 1`, or at a `break`; `aborted` is an assertion
-- of the poller that fails. The return value is 1 for `waiting`, and 0 for `finished` and `broken`.
pub data Piped (P : Type 0) : Type 0 where
  finished : Pipe P → Piped P
  waiting : Pipe P → Piped P
  broken : Pipe P → Piped P
  aborted : Piped P
  out_of_fuel : Piped P

pub data PipeTurn (P : Type 0) : Type 0 where
  go_on : Pipe P → PipeTurn P
  ends : Piped P → PipeTurn P

abbrev pub is_empty : List ℕ → Bool
is_empty [] = true
is_empty (x ∷ xs) = false

module _ {P : Type 0} where
  abbrev pub wait_for : Option (Net P) → Pipe P → PipeTurn P
  wait_for none s = ends aborted
  wait_for (some net) s = ends (waiting (record s { net = net }))

  -- `off += n`.
  abbrev pub advance : ℕ → Pipe P → Pipe P
  advance n s = record s { off = s.off + n }

  -- What a call that is handed the bytes `xs` has done: `out` gets those of `xs` that it has taken.
  abbrev pub file_done : List ℕ → Option ℕ × Net P → Pipe P → Option ℕ × Pipe P
  file_done xs (none, net) s = (none, record s { net = net })
  file_done xs (some n, net) s = (some n, record s { net = net; out = s.out ++ take n xs })

  abbrev pub write_done : List ℕ → Option (ℤ × Net P) → Pipe P → Option (ℤ × Pipe P)
  write_done xs none s = none
  write_done xs (some (pos n, net)) s =
      some (pos n, record s { net = net; out = s.out ++ take n xs })
  write_done xs (some (negsuc n, net)) s = some (negsuc n, record s { net = net })

  -- `recv` returns -1: `tx_aincb_update`, the `BREAK`, and `len = err, off = 0`.
  abbrev pub refuse : ℕ → Bool → List Received → Pipe P → PipeTurn P
  refuse f again rest s =
      let net = tx_aincb_update f true again s.net in
      if (flags_at net f).readable
      then ends (broken (record s { net = net; arriving = rest }))
      else go_on (record s { net = net; off = 0; buf = []; arriving = rest })

  unfoldable pub fill : ℕ → List Received → Pipe P → PipeTurn P
  fill f [] s = refuse f true [] s
  fill f (refused again ∷ rest) s = refuse f again rest s
  fill f (bytes bs ∷ rest) s = go_on (record s {
    eof = s.eof || is_empty bs;
    off = 0;
    buf = bs;
    arriving = rest;
    came = s.came ++ bs;
  })

  -- What follows the call of WriteFile, and of `tx_outcb_write` for `t`.
  abbrev pub filed : Option ℕ × Pipe P → PipeTurn P
  filed (none, s) = ends (broken s)
  filed (some n, s) = go_on (advance n s)

  abbrev pub written : ℕ → Option (ℤ × Pipe P) → PipeTurn P
  written t none = ends aborted
  written t (some (pos n, s)) = go_on (advance n s)
  written t (some (negsuc n, s)) = if (flags_at s.net t).writable then ends (broken s) else go_on s

  module _ (ops : PollOps P) (write : ℕ → List ℕ → Net P → Option (ℤ × Net P))
      (write_file : List ℕ → Net P → Option ℕ × Net P) where
    -- The calls with the bytes `xs`.
    abbrev pub call_file : List ℕ → Pipe P → Option ℕ × Pipe P
    call_file xs s = file_done xs (write_file xs s.net) s

    abbrev pub call_write : ℕ → List ℕ → Pipe P → Option (ℤ × Pipe P)
    call_write t xs s = write_done xs (write t xs s.net) s

    -- `buf + off, len - off` is what is handed to them.
    unfoldable pub drain : (t sk : Option ℕ) → Pipe P → PipeTurn P
    drain none sk s =
        if ltb s.off (length s.buf) then filed (call_file (drop s.off s.buf) s) else go_on s
    drain (some t) sk s =
        if ltb s.off (length s.buf)
        then (if (flags_at s.net t).writable
            then written t (call_write t (drop s.off s.buf) s)
            else wait_for (generic_active_out ops t sk s.net) s)
        else go_on s

    abbrev pub then_drain : (t sk : Option ℕ) → PipeTurn P → PipeTurn P
    then_drain t sk (go_on s) = drain t sk s
    then_drain t sk (ends r) = ends r

    -- The body of the `while`.
    unfoldable pub pipe_turn : (f : ℕ) (t sk : Option ℕ) → Pipe P → PipeTurn P
    unfolding drain fill
    pipe_turn f t sk s =
        if s.off == length s.buf
        then (if (flags_at s.net f).readable
            then then_drain t sk (fill f s.arriving s)
            else wait_for (generic_active_in ops f sk s.net) s)
        else drain t sk s

    unfoldable pub pipling : (fuel f : ℕ) (t sk : Option ℕ) → Pipe P → Piped P
    unfolding pipe_turn
    pipling zero f t sk s = out_of_fuel
    pipling (suc n) f t sk s =
        if not s.eof || ltb s.off (length s.buf)
        then elim (pipe_turn f t sk s) [ go_on u ↦ pipling n f t sk u | ends r ↦ r ]
        else finished s
