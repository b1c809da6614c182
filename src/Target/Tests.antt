-- ===== src/Target/Tests.antt =====
-- The theorems on target addresses at `ab:80`, at an address that is too long, and at `a b`.
use libtx.Common.{ℕ, zero, suc, ◌≡◌, refl, true, Option, none, some, List, [], ◌∷◌, arith}
use libtx.Common.Int.{pos}
use libtx.Target.{TcpipInfo, returns, overrun, Words, get_target_address}
use libtx.Target.Room.{inside, target-inside, long-overruns}
use libtx.Target.Hosts.{target-host_port}

-- Stand-ins for what is not in the repository: one known host, and numbers of one or two digits.
abbrev number : List ℕ → ℕ
number (a ∷ b ∷ rest) = 80
number _ = 0

abbrev known : List ℕ → Option ℕ
known (x ∷ y ∷ []) = some 7
known _ = none

abbrev no_words : List ℕ → Option Words
no_words text = none

abbrev info : TcpipInfo
info = record { port = 1; ipv6_0 = 2; ipv6_1 = 3; ipv6_2 = 4; tii_address = 5 }

target-host_port_example :
    get_target_address
      (λ n. n)
      number
      number
      known
      no_words
      65535
      info
      (b'a' ∷ b'b' ∷ b':' ∷ b'8' ∷ b'0' ∷ [])
    ≡ returns
        (pos 0)
        (record { port = 80; ipv6_0 = 0; ipv6_1 = 0; ipv6_2 = 65535; tii_address = 7 })
target-host_port_example =
    target-host_port (λ n. n) number number known no_words 65535 info (b'a' ∷ b'b' ∷ [])
      (b'8' ∷ b'0' ∷ []) refl refl refl (omega arith)

target-inside_example :
    inside (
      get_target_address (λ n. n) number number known no_words 65535 info (b'1' ∷ b':' ∷ b':' ∷ []))
    ≡ true
target-inside_example =
    target-inside (λ n. n) number number known no_words 65535 info (b'1' ∷ b':' ∷ b':' ∷ [])
      (omega arith)

abbrev ones : ℕ → List ℕ
ones zero = []
ones (suc n) = b'1' ∷ ones n

long-overruns_example :
    get_target_address (λ n. n) number number known no_words 65535 info (b':' ∷ b':' ∷ ones 126)
    ≡ overrun
long-overruns_example =
    long-overruns (λ n. n) number number known no_words 65535 info (b':' ∷ b':' ∷ ones 126) refl
      (omega arith) (omega arith)
