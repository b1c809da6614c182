-- ===== src/Stdio/Tests.antt =====
-- The theorem on the copying tasks at two reads and then a read that would block.
use libtx.Common.{ℕ, ◌≡◌, refl, true, false, Option, none, some, List, [], ◌∷◌}
use libtx.Common.Int.{ℤ, pos}
use libtx.Loop.{tx_loop_new}
use libtx.Aiocb.{Net, PollOps, blank, tx_aincb_update, generic_active_in}
use libtx.Pipling.{bytes, refused}
use libtx.Stdio.{Copy, cat_update_stdio, get_update_stdio, copy_each, failed}
use libtx.Stdio.Copied.{Copied, CopiedSent, update_stdio-copies}

-- A poller without a state.
abbrev ops : PollOps Unit
ops = record {
  tx_pollout = λ p s. some s;
  tx_pollin = λ p s. some s;
  tx_attach = λ p s. s;
  tx_detach = λ p s. s;
}

abbrev input : Net Unit
input = record {
  poll = tt;
  filps = λ p. record (blank none) {
    tx_flags = record {
      tx_listen = false;
      pollin = false;
      pollout = false;
      readable = true;
      writable = true;
      attached = true;
      detached = false;
    };
  };
  loop = tx_loop_new λ p. record {
    tx_flags = record { idle = true; busy = false; pending = false; user_mark = false };
    tx_reason = 0;
    tx_data = 0;
    tx_call = p;
  };
}

abbrev start : Copy Unit
start = record {
  net = input;
  arriving = bytes (7 ∷ []) ∷ bytes (8 ∷ 9 ∷ []) ∷ refused true ∷ [];
  came = [];
  out = [];
}

abbrev written : Net Unit → Option (ℤ × Net Unit)
written s = some (pos 3, s)

update_stdio-copies_example :
    Copied (cat_update_stdio ops 1 9 start)
    × CopiedSent (get_update_stdio ops 1 9 written false start)
update_stdio-copies_example = update_stdio-copies ops 1 9 written false start refl refl

abbrev out_of : Option (Copy Unit) → List ℕ
out_of none = []
out_of (some s) = s.out

three_bytes : out_of (cat_update_stdio ops 1 9 start) ≡ 7 ∷ 8 ∷ 9 ∷ []
unfolding cat_update_stdio copy_each failed tx_aincb_update generic_active_in
three_bytes = refl
