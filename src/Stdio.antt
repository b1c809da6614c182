-- ===== src/Stdio.antt =====
-- `update_stdio` of txcat.cpp and of txget.cpp: a task that copies what comes from a descriptor to the
-- standard output, and stops the loop at its end.
--
-- What is to arrive is a list, and a read after it would block. `came` and `out` are all the bytes
-- that have been read and written so far. `none` is an assertion of the poller that fails.
pub mod Copied
mod Tests
use libtx.Common.{
  ℕ, Bool, true, false, not, Option, none, some, List, [], ◌∷◌, ◌++◌, length, if◌then◌else◌,
}
use libtx.Common.Int.{ℤ, pos}
use libtx.Inet.{◌>>=◌}
use libtx.Loop.{TxLoop, tx_loop_stop}
use libtx.Aiocb.{Net, PollOps, flags_at, generic_active_in, tx_aincb_update}
use libtx.Pipling.{Received, bytes, refused, is_empty}

pub record Copy (P : Type 0) : Type 0 where
  pub net : Net P
  pub arriving : List Received
  pub came : List ℕ
  pub out : List ℕ

module _ {P : Type 0} where
  abbrev pub stop : Copy P → Copy P
  stop s = record s { net = record s.net { loop = tx_loop_stop s.net.loop } }

  abbrev pub with_net : Copy P → Net P → Copy P
  with_net s net = record s { net = net }

  module _ (ops : PollOps P) (f sk : ℕ) where
    abbrev pub wait : Copy P → Option (Copy P)
    wait s = generic_active_in ops f (some sk) s.net >>= λ net. some (with_net s net)

    -- What follows a read that returns -1.
    unfoldable pub failed : Bool → Copy P → Option (Copy P)
    failed again s =
        let t = with_net s (tx_aincb_update f true again s.net) in
        if (flags_at t.net f).readable then some (stop t) else wait t

    -- The `for`; `tx_aincb_update` does nothing after a read of bytes.
    unfoldable pub copy_each : List Received → Copy P → Option (Copy P)
    unfolding failed
    copy_each [] s = failed true (record s { arriving = [] })
    copy_each (refused again ∷ rest) s = failed again (record s { arriving = rest })
    copy_each (bytes bs ∷ rest) s =
        let t = record s { arriving = rest; came = s.came ++ bs } in
        let next = copy_each rest (record t { out = s.out ++ bs }) in
        if not (flags_at s.net f).readable
        then wait t
        else if is_empty bs
        then some (stop t)
        else next

    -- `update_stdio` of txcat.cpp.
    unfoldable pub cat_update_stdio : Copy P → Option (Copy P)
    unfolding copy_each
    cat_update_stdio s = copy_each s.arriving s

    -- `update_stdio` of txget.cpp. `write` is `tx_outcb_write` of the request to the descriptor, whose
    -- answer is not looked at; the result has `tp->sent` too.
    unfoldable pub get_update_stdio :
        (write : Net P → Option (ℤ × Net P)) (sent : Bool) → Copy P → Option (Bool × Copy P)
    unfolding copy_each
    get_update_stdio write true s = copy_each s.arriving s >>= λ u. some (true, u)
    get_update_stdio write false s = write s.net >>= λ r.
        let t = with_net s r.1 in
        (if (flags_at t.net f).readable then copy_each t.arriving t else wait t) >>= λ u.
        some (true, u)
