-- ===== src/Inet/Tests.antt =====
-- The theorems on dotted addresses at 192.0.2.10.
use libtx.Common.{ℕ, ◌≡◌, ◌↔◌, refl, some, none, List, [], ◌∷◌}
use libtx.Inet.{inet_pton4, scan, round, finish}
use libtx.Inet.Exact.{IsDotted, inet_pton4-exact}

abbrev address : List ℕ
address = b'1' ∷ b'9' ∷ b'2' ∷ b'.' ∷ b'0' ∷ b'.' ∷ b'2' ∷ b'.' ∷ b'1' ∷ b'0' ∷ []

inet_pton4-exact_example :
    (inet_pton4 address ≡ some (192 ∷ 0 ∷ 2 ∷ 10 ∷ [])) ↔ IsDotted address (192 ∷ 0 ∷ 2 ∷ 10 ∷ [])
inet_pton4-exact_example = inet_pton4-exact address (192 ∷ 0 ∷ 2 ∷ 10 ∷ [])

address_read : inet_pton4 address ≡ some (192 ∷ 0 ∷ 2 ∷ 10 ∷ [])
unfolding inet_pton4 scan round finish
address_read = refl

-- A leading zero is refused.
zero_refused : inet_pton4 (b'0' ∷ b'1' ∷ b'.' ∷ []) ≡ none
unfolding inet_pton4 scan round finish
zero_refused = refl
