-- ===== src/Stdio/Copied.antt =====
-- What `update_stdio` (txcat.cpp, txget.cpp) has written.
use libtx.Common.{
  ℕ, ◌≡◌, ap, Bool, true, false, Option, none, some, List, [], ◌∷◌, ◌++◌, if◌then◌else◌, if_cases,
  Bool-cases, inl, inr,
}
use mathlib.Core.List.{append-nil}
use libtx.Common.Int.{ℤ}
use libtx.Inet.{◌>>=◌}
use libtx.Aiocb.{Net, PollOps, flags_at, generic_active_in, tx_aincb_update}
use libtx.Pipling.{Received, bytes, refused}
use libtx.Stdio.{Copy, with_net, wait, failed, copy_each, cat_update_stdio, get_update_stdio}

-- All that has come has been written.
abbrev pub Copied : {P : Type 0} → Option (Copy P) → Type 0
Copied none = Unit
Copied (some s) = s.out ≡ s.came

abbrev pub CopiedSent : {P : Type 0} → Option (Bool × Copy P) → Type 0
CopiedSent none = Unit
CopiedSent (some (sent, s)) = s.out ≡ s.came

module _ {P : Type 0} (ops : PollOps P) (f sk : ℕ) where
  wait-Copied : (s : Copy P) → s.out ≡ s.came → Copied (wait ops f sk s)
  wait-Copied s e =
      elim (generic_active_in ops f (some sk) s.net)
        as (λ m. Copied (m >>= λ net. some (with_net s net))) [ none ↦ tt | some net ↦ e ]

  failed-Copied : (again : Bool) (s : Copy P) → s.out ≡ s.came → Copied (failed ops f sk again s)
  unfolding failed
  failed-Copied again s e =
      if_cases Copied (flags_at (tx_aincb_update f true again s.net) f).readable (λ _. e)
        (λ _. wait-Copied (with_net s (tx_aincb_update f true again s.net)) e)

  copy_each-Copied :
      (rs : List Received) (s : Copy P)
      → (flags_at s.net f).readable ≡ true
      → s.out ≡ s.came
      → Copied (copy_each ops f sk rs s)
  unfolding copy_each
  copy_each-Copied [] s r e = failed-Copied true (record s { arriving = [] }) e
  copy_each-Copied (refused again ∷ rest) s r e =
      failed-Copied again (record s { arriving = rest }) e
  copy_each-Copied (bytes [] ∷ rest) s r e = rw (r, append-nil s.came) e
  copy_each-Copied (bytes (b ∷ bs) ∷ rest) s r e = rw (r) (
      copy_each-Copied rest
        (record s { arriving = rest; came = s.came ++ b ∷ bs; out = s.out ++ b ∷ bs }) r
        (ap (λ xs. xs ++ b ∷ bs) e))

  sent-Copied : (m : Option (Copy P)) → Copied m → CopiedSent (m >>= λ u. some (true, u))
  sent-Copied none c = tt
  sent-Copied (some u) c = c

  get-Copied :
      (write : Net P → Option (ℤ × Net P)) (sent : Bool) (s : Copy P)
      → (flags_at s.net f).readable ≡ true
      → s.out ≡ s.came
      → CopiedSent (get_update_stdio ops f sk write sent s)
  unfolding get_update_stdio
  get-Copied write true s r e =
      sent-Copied (copy_each ops f sk s.arriving s) (copy_each-Copied s.arriving s r e)
  get-Copied write false s r e =
      elim (write s.net)
        as (λ m. CopiedSent (
          m >>= λ a.
          let t = with_net s a.1 in
          (if (flags_at t.net f).readable then copy_each ops f sk t.arriving t else wait ops f sk t)
          >>= λ u. some (true, u))) [
            | none ↦ tt
            | some (n, net) ↦
                let t = with_net s net in
                elim (Bool-cases (flags_at net f).readable) [
                  | inl k ↦ rw (k) (
                      sent-Copied (copy_each ops f sk t.arriving t)
                        (copy_each-Copied t.arriving t k e))
                  | inr k ↦ rw (k) (sent-Copied (wait ops f sk t) (wait-Copied t e))
                ]
          ]

  -- If what has come has been written, and the task is called when the descriptor is readable, then
  -- both versions of `update_stdio` have written all that has come when they return, whatever is read,
  -- and whatever `tx_outcb_write` does.
  pub update_stdio-copies :
      (write : Net P → Option (ℤ × Net P)) (sent : Bool) (s : Copy P)
      → (flags_at s.net f).readable ≡ true
      → s.out ≡ s.came
      → Copied (cat_update_stdio ops f sk s) × CopiedSent (get_update_stdio ops f sk write sent s)
  unfolding cat_update_stdio
  update_stdio-copies write sent s r e =
      (copy_each-Copied s.arriving s r e, get-Copied write sent s r e)
