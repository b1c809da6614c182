-- ===== src/Epoll/Count.antt =====
-- How many descriptors of a set the poller of tx_epoll.cpp watches.
use libtx.Common.{ℕ, Bool, true, false, not, ◌&&◌, ◌||◌, List}
use libtx.Aiocb.{Aiocb, Net}
use libtx.Aiocb.Weights.{total}
use libtx.Epoll.{Epoll}
use libtx.Epoll.Holder

abbrev pub bit : Bool → ℕ
bit true = 1
bit false = 0

-- The descriptor is watched: it is polled and has not left the poller.
abbrev pub is_watched : Aiocb → Bool
is_watched f = (f.tx_flags.pollin || f.tx_flags.pollout) && not f.tx_flags.detached

abbrev pub weight : Aiocb → ℕ
weight f = bit (is_watched f)

abbrev pub count : List ℕ → (ℕ → Aiocb) → ℕ
count = total weight

module _ {K : Type 0} where
  abbrev pub Counted : List ℕ → Net (Epoll K) → Type 0
  Counted = Holder.Counted weight

  abbrev pub Watching : List ℕ → Net (Epoll K) → Type 0
  Watching = Holder.Watching weight
