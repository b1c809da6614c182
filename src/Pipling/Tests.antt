-- ===== src/Pipling/Tests.antt =====
-- The theorems on netcat.cpp at two bytes that are passed on one at a time, and at the completion port.
use libtx.Common.{
  suc, ℕ, ◌≡◌, ◌≢◌, ◌≤◌, refl, true, false, Option, none, some, List, [], ◌∷◌, length, arith,
}
use libtx.Common.Int.{ℤ, pos}
use libtx.Loop.{tx_loop_new}
use libtx.Aiocb.{Net, PollOps, blank}
use libtx.Port.{Port}
use libtx.Pipling.{Pipe, bytes, out_of_fuel, pipling, pipe_turn, drain, fill}
use libtx.Pipling.Conserved.{Whole, Conserved, Sends, pipling-Conserved}
use libtx.Pipling.Ending.{rounds, pipling-returns}
use libtx.Pipling.Both.{NetcatTask, update_netcat}
use libtx.Pipling.Thread.{thread_pipling, started}
use libtx.Pipling.ThreadEnds.{EndsInOrder, thread-relays}
use libtx.Pipling.Windows.{Answer, port_write, port_write-Sends}

-- A poller without a state.
abbrev ops : PollOps Unit
ops = record {
  tx_pollout = λ p s. some s;
  tx_pollin = λ p s. some s;
  tx_attach = λ p s. s;
  tx_detach = λ p s. s;
}

abbrev one_byte : ℕ → List ℕ → Net Unit → Option (ℤ × Net Unit)
one_byte t xs s = some (pos 1, s)

abbrev whole_file : {P : Type 0} → List ℕ → Net P → Option ℕ × Net P
whole_file xs s = (some (length xs), s)

promise : Sends one_byte whole_file
promise = record {
  sends = λ t n xs s u h e. ground (arith, e, h);
  files = λ n xs s h e. ground (arith, e, h);
}

abbrev descriptors : Net Unit
descriptors = record {
  poll = tt;
  filps = λ p. record (blank none) {
    tx_flags = record {
      tx_listen = false;
      pollin = false;
      pollout = false;
      readable = true;
      writable = true;
      attached = true;
      detached = false;
    };
  };
  loop = tx_loop_new λ p. record {
    tx_flags = record { idle = true; busy = false; pending = false; user_mark = false };
    tx_reason = 0;
    tx_data = 0;
    tx_call = p;
  };
}

abbrev start : Pipe Unit
start = record {
  eof = false;
  off = 0;
  buf = [];
  net = descriptors;
  arriving = bytes (7 ∷ 8 ∷ []) ∷ bytes [] ∷ [];
  came = [];
  out = [];
}

start-Whole : Whole start
start-Whole = record { conserved = refl; inside = ground arith }

pipling-Conserved_example : Conserved (pipling ops one_byte whole_file 40 1 (some 2) (some 9) start)
pipling-Conserved_example =
    pipling-Conserved ops one_byte whole_file promise 40 1 (some 2) (some 9) start start-Whole

pipling-returns_example : pipling ops one_byte whole_file 40 1 (some 2) (some 9) start ≢ out_of_fuel
unfolding rounds
pipling-returns_example =
    pipling-returns ops one_byte whole_file promise 40 1 (some 2) (some 9) start start-Whole
      (ground arith)

abbrev netcat : NetcatTask Unit
netcat = record { net = descriptors; s2n = start; n2s = start }

updated : (u : NetcatTask Unit) × (update_netcat ops one_byte whole_file 40 1 2 9 netcat ≡ some u)
unfolding update_netcat pipling pipe_turn drain fill
updated = (_, refl)

abbrev half : ℕ → List ℕ → Net Port → Answer
half t [] s = record { memlock = false; sent = 0; accepted = true }
half t (x ∷ xs) s = record { memlock = false; sent = 1; accepted = true }

half_le : (t : ℕ) (xs : List ℕ) (s : Net Port) → (half t xs s).sent ≤ length xs
half_le t [] s = ground arith
half_le t (x ∷ xs) s = ground arith

port_write-Sends_example : Sends (port_write half) whole_file
port_write-Sends_example =
    port_write-Sends half whole_file half_le (λ n xs s h e. ground (arith, e, h))

-- A system that takes one byte of each write, and counts them.
abbrev counted : List ℕ → ℕ → Option ℕ × ℕ
counted xs k = (some 1, suc k)

thread-relays_example :
    EndsInOrder (thread_pipling counted 9 (started (some (7 ∷ 8 ∷ []) ∷ some (9 ∷ []) ∷ []) 0))
thread-relays_example =
    thread-relays counted (λ n xs k h e. ground (arith, e, h)) 9
      (some (7 ∷ 8 ∷ []) ∷ some (9 ∷ []) ∷ []) 0 (ground arith)
