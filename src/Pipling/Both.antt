-- ===== src/Pipling/Both.antt =====
-- `update_netcat` of netcat.cpp, the task that passes bytes on in both directions.
use libtx.Common.{
  ℕ, ◌≡◌, refl, subst, arith, Bool, true, false, ◌||◌, Option, none, some, List, if◌then◌else◌,
}
use libtx.Common.Int.{ℤ}
use libtx.Inet.{◌>>=◌}
use libtx.Loop.{tx_loop_stop}
use libtx.Aiocb.{Net, PollOps}
use libtx.Pipling.{Pipe, Piped, finished, waiting, broken, aborted, out_of_fuel, pipling}
use libtx.Pipling.Conserved.{Whole, Conserved, Sends, pipling-Conserved}

-- `tx_netcat_t`; the descriptors of a `Pipe` are those of `net`, which all share.
pub record NetcatTask (P : Type 0) : Type 0 where
  pub net : Net P
  pub s2n : Pipe P
  pub n2s : Pipe P

abbrev WholeOf : {P : Type 0} → Option (Bool × Pipe P) → Type 0
WholeOf none = Unit
WholeOf (some (b, s)) = Whole s

abbrev BothWhole : {P : Type 0} → Option (NetcatTask P) → Type 0
BothWhole none = Unit
BothWhole (some u) = Whole u.s2n × Whole u.n2s

module _ {P : Type 0} where
  -- Whether `pipling` has returned 0.
  abbrev pub pipe_of : Piped P → Option (Bool × Pipe P)
  pipe_of (finished s) = some (true, s)
  pipe_of (waiting s) = some (false, s)
  pipe_of (broken s) = some (true, s)
  pipe_of aborted = none
  pipe_of out_of_fuel = none

  abbrev pub stop_if : Bool → Net P → Net P
  stop_if c s = if c then record s { loop = tx_loop_stop s.loop } else s

  module _ (ops : PollOps P) (write : ℕ → List ℕ → Net P → Option (ℤ × Net P))
      (write_file : List ℕ → Net P → Option ℕ × Net P) where
    -- `file` and `file2` are the descriptors, and `sk` is the task itself.
    unfoldable pub update_netcat : (fuel file file2 sk : ℕ) → NetcatTask P → Option (NetcatTask P)
    unfolding pipling
    update_netcat fuel file file2 sk np =
        pipe_of (
          pipling ops write write_file fuel file2 (some file) (some sk)
            (record np.s2n { net = np.net }))
        >>= λ a.
            pipe_of (
              pipling ops write write_file fuel file (some file2) (some sk)
                (record np.n2s { net = a.1.net }))
            >>= λ b. some (record { net = stop_if (a.0 || b.0) b.1.net; s2n = a.1; n2s = b.1 })

  at_net : (net : Net P) (s : Pipe P) → Whole s → Whole (record s { net = net })
  at_net net s w = record { conserved = w.conserved; inside = w.inside }

  pipe_of-Whole : (r : Piped P) (a : Bool × Pipe P) → Conserved r → pipe_of r ≡ some a → Whole a.1
  pipe_of-Whole (finished s) a c e = subst WholeOf e c.0
  pipe_of-Whole (waiting s) a c e = subst WholeOf e c
  pipe_of-Whole (broken s) a c e = subst WholeOf e c
  pipe_of-Whole aborted a c e = absurd (ground (arith, e))
  pipe_of-Whole out_of_fuel a c e = absurd (ground (arith, e))

-- A value that a bind returns comes from a value of what it binds.
bind-some :
    {A B : Type 0} (m : Option A) (k : A → Option B) (b : B)
    → m >>= k ≡ some b
    → (a : A) × (m ≡ some a) × (k a ≡ some b)
bind-some none k b e = absurd (ground (arith, e))
bind-some (some a) k b e = (a, refl, e)

module _ {P : Type 0} (ops : PollOps P) (write : ℕ → List ℕ → Net P → Option (ℤ × Net P))
    (write_file : List ℕ → Net P → Option ℕ × Net P) (promise : Sends write write_file) where
  -- If each write takes some of what it is given and no more, and in both directions the bytes that
  -- have come are those that have been passed on and those that the buffer holds, in order, then it is
  -- so again when `update_netcat` returns.
  pub update_netcat-Whole :
      (fuel file file2 sk : ℕ) (np u : NetcatTask P)
      → Whole np.s2n
      → Whole np.n2s
      → update_netcat ops write write_file fuel file file2 sk np ≡ some u
      → Whole u.s2n × Whole u.n2s
  unfolding update_netcat
  update_netcat-Whole fuel file file2 sk np u w1 w2 e =
      let s = record np.s2n { net = np.net } in
      let (a, p, k) =
        bind-some (pipe_of (pipling ops write write_file fuel file2 (some file) (some sk) s)) _ u
          e in
      let t = record np.n2s { net = a.1.net } in
      let (b, q, l) =
        bind-some (pipe_of (pipling ops write write_file fuel file (some file2) (some sk) t)) _ u
          k in
      let ok1 =
        pipe_of-Whole _ a
          (pipling-Conserved ops write write_file promise fuel file2 (some file) (some sk) s
            (at_net np.net np.s2n w1))
          p in
      let ok2 =
        pipe_of-Whole _ b
          (pipling-Conserved ops write write_file promise fuel file (some file2) (some sk) t
            (at_net a.1.net np.n2s w2))
          q in
      subst BothWhole l (ok1, ok2)
