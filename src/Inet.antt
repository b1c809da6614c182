-- ===== src/Inet.antt =====
-- `inet_pton4` of tx_platform.cpp, the reading of a dotted address; ncatutil.cpp has the same text.
--
-- A text is the list of its bytes, without the terminating zero. The buffer `tmp` is the sequence of
-- the octets that are done, the latest first, and the octet that `tp` points to.
pub mod Exact
pub mod Printing
pub mod Accepted
mod Tests
use mathlib.Core.List.{reverse}
use libtx.Common.{
  ℕ, zero, suc, ◌+◌, ◌-◌, ◌*◌, ◌≤◌, ◌<◌, Bool, true, false, not, ◌&&◌, Option, none, some, List, [],
  ◌∷◌, ltb, leb, ◌==◌, if◌then◌else◌,
}

-- `pch = strchr (digits, ch)` is not NULL, for a byte that is not 0; `pch - digits` is `ch - '0'`.
abbrev pub is_digit : ℕ → Bool
is_digit ch = leb b'0' ch && leb ch b'9'

pub record Parser : Type 0 where
  pub saw_digit : Bool
  pub octets : ℕ
  pub done : List ℕ
  pub current : ℕ

abbrev pub start : Parser
start = record { saw_digit = false; octets = 0; done = []; current = 0 }

-- One round of the `while`; `none` is `return 0`.
unfoldable pub digit : ℕ → Parser → Option Parser
digit ch p =
    let nw = p.current * 10 + (ch - b'0') in
    if p.saw_digit && p.current == 0
    then none
    else if ltb 255 nw
    then none
    else if p.saw_digit
    then some (record p { current = nw })
    else if ltb 4 (p.octets + 1)
    then none
    else some (record p { current = nw; octets = p.octets + 1; saw_digit = true })

unfoldable pub dot : Parser → Option Parser
dot p =
    if p.octets == 4
    then none
    else some (record p { done = p.current ∷ p.done; current = 0; saw_digit = false })

unfoldable pub round : ℕ → Parser → Option Parser
unfolding digit dot
round ch p = if is_digit ch then digit ch p else if ch == b'.' && p.saw_digit then dot p else none

infixl 5 ◌>>=◌
abbrev pub ◌>>=◌ {ℓ κ} : {A : Type ℓ} {B : Type κ} → Option A → (A → Option B) → Option B
none >>= f = none
some a >>= f = f a

-- The `while`, up to the end of the text.
unfoldable pub scan : List ℕ → Parser → Option Parser
scan [] p = some p
scan (ch ∷ src) p = round ch p >>= λ q. scan src q

-- What follows the `while`: the four octets are copied to `dst`.
unfoldable pub finish : Parser → Option (List ℕ)
finish p = if ltb p.octets 4 then none else some (reverse (p.current ∷ p.done))

unfoldable pub inet_pton4 : List ℕ → Option (List ℕ)
inet_pton4 src = scan src start >>= finish
