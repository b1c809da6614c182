-- ===== src/Pipling/Thread.antt =====
-- The thread `pipling` of netcat.cpp, which passes on what it reads until the end of the file.
--
-- `p_write` is P_WRITE, with `none` for -1, and acts on a state of the system. What P_READ returns is a
-- list, with `none` for -1; behind it P_READ returns 0. `buf` is what the buffer holds in its first
-- `len` bytes. `came` and `out` are all the bytes that have been read so far, and that P_WRITE has taken
-- of what it was handed.
use libtx.Common.{
  ℕ, zero, suc, ◌+◌, Bool, false, not, ◌||◌, ◌==◌, ltb, Option, none, some, List, [], ◌∷◌, ◌++◌,
  length, take, drop, if◌then◌else◌,
}
use libtx.Pipling.{is_empty}

pub record Thread (K : Type 0) : Type 0 where
  pub eof : Bool
  pub off : ℕ
  pub buf : List ℕ
  pub reads : List (Option (List ℕ))
  pub system : K
  pub came : List ℕ
  pub out : List ℕ

-- `end_of_file` is the end of the `while`, and `cut` a P_BREAK; P_CLOSE follows both.
pub data ThreadEnd (K : Type 0) : Type 0 where
  end_of_file : Thread K → ThreadEnd K
  cut : Thread K → ThreadEnd K
  unfinished : ThreadEnd K

pub data ThreadTurn (K : Type 0) : Type 0 where
  next : Thread K → ThreadTurn K
  leaves : ThreadEnd K → ThreadTurn K

module _ {K : Type 0} where
  abbrev pub filled : List ℕ → List (Option (List ℕ)) → Thread K → Thread K
  filled bs rest s = record s {
    eof = s.eof || is_empty bs;
    off = 0;
    buf = bs;
    reads = rest;
    came = s.came ++ bs;
  }

  abbrev pub p_read : List (Option (List ℕ)) → Thread K → ThreadTurn K
  p_read [] s = next (filled [] [] s)
  p_read (none ∷ rest) s = leaves (cut (record s { reads = rest }))
  p_read (some bs ∷ rest) s = next (filled bs rest s)

  -- What a P_WRITE that is handed the bytes `xs` has done: `out` gets those of `xs` that it has taken.
  abbrev pub write_done : List ℕ → Option ℕ × K → Thread K → Option ℕ × Thread K
  write_done xs (none, k) s = (none, record s { system = k })
  write_done xs (some n, k) s = (some n, record s { system = k; out = s.out ++ take n xs })

  -- What follows it.
  abbrev pub put : Option ℕ × Thread K → ThreadTurn K
  put (none, s) = leaves (cut s)
  put (some n, s) = next (record s { off = s.off + n })

  module _ (p_write : List ℕ → K → Option ℕ × K) where
    -- The call with the bytes `xs`.
    abbrev pub call_write : List ℕ → Thread K → Option ℕ × Thread K
    call_write xs s = write_done xs (p_write xs s.system) s

    -- `buf + off, len - off` is what is handed to it.
    abbrev pub write_rest : Thread K → ThreadTurn K
    write_rest s =
        if ltb s.off (length s.buf) then put (call_write (drop s.off s.buf) s) else next s

    abbrev pub then_write : ThreadTurn K → ThreadTurn K
    then_write (next s) = write_rest s
    then_write (leaves e) = leaves e

    abbrev pub thread_turn : Thread K → ThreadTurn K
    thread_turn s = if s.off == length s.buf then then_write (p_read s.reads s) else write_rest s

    -- The `while`, and what follows it.
    unfoldable pub thread_pipling : ℕ → Thread K → ThreadEnd K
    thread_pipling zero s = unfinished
    thread_pipling (suc n) s =
        if not s.eof || ltb s.off (length s.buf)
        then elim (thread_turn s) [ next u ↦ thread_pipling n u | leaves e ↦ e ]
        else end_of_file s

-- At the start of the thread.
abbrev pub started : {K : Type 0} → List (Option (List ℕ)) → K → Thread K
started reads k = record {
  eof = false;
  off = 0;
  buf = [];
  reads = reads;
  system = k;
  came = [];
  out = [];
}
