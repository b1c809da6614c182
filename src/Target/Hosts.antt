-- ===== src/Target/Hosts.antt =====
-- What `get_target_address` (tx_platform.cpp) makes of host names and ports.
use mathlib.Core.List.{append-nil}
use libtx.Common.{
  ℕ, ◌<◌, ◌≡◌, refl, sym, ◌∙◌, ap, true, false, ◌&&◌, ◌||◌, Bool, Option, none, some, List, [], ◌∷◌,
  ◌++◌, ◌==◌, ltb, length, arith, Bool-cases, inl, inr,
}
use libtx.Common.Int.{pos, negsuc}
use libtx.Inet.{is_digit, ◌>>=◌}
use libtx.Target.{
  AddressFlags, TcpipInfo, Words, returns, is_alpha, classify, classify_each, no_flags, up_to, from,
  is_number, is_dotted, is_name, set_host, split_target, target, get_target_address,
}

-- A byte of a host name: a letter, a digit, a dot or a hyphen.
abbrev pub is_name_byte : ℕ → Bool
is_name_byte b = is_digit b || b == b'.' || b == b'-' || is_alpha b

abbrev pub name_bytes : List ℕ → Bool
name_bytes [] = true
name_bytes (b ∷ bs) = is_name_byte b && name_bytes bs

abbrev pub has_letter : List ℕ → Bool
has_letter [] = false
has_letter (b ∷ bs) = (is_alpha b || b == b'-') || has_letter bs

abbrev pub has_dot : List ℕ → Bool
has_dot [] = false
has_dot (b ∷ bs) = b == b'.' || has_dot bs

abbrev pub has_number : List ℕ → Bool
has_number [] = false
has_number (b ∷ bs) = is_digit b || has_number bs

abbrev pub all_digits : List ℕ → Bool
all_digits [] = true
all_digits (b ∷ bs) = is_digit b && all_digits bs

abbrev pub marked : (d a n : Bool) → AddressFlags → AddressFlags
marked d a n f = record f { have_dot = d; have_alpha = a; have_number = n }

marked-eq :
    (f : AddressFlags) {d d' a a' n n' : Bool}
    → d ≡ d'
    → a ≡ a'
    → n ≡ n'
    → marked d a n f ≡ marked d' a' n' f
marked-eq f p q r = rw (p, q, r) refl

-- The flags after the bytes of a name.
abbrev pub with_name : List ℕ → AddressFlags → AddressFlags
with_name bs f =
    marked (f.have_dot || has_dot bs) (f.have_alpha || has_letter bs)
      (f.have_number || has_number bs) f

pub classify-name :
    (b : ℕ) (f : AddressFlags) → is_name_byte b ≡ true → classify b f ≡ some (with_name (b ∷ []) f)
unfolding classify
classify-name b f e = elim (Bool-cases (is_digit b)) [
  | inl d ↦ rw (d) (ap some (marked-eq f (ground arith) (ground arith) (ground arith)))
  | inr d ↦
      let c : (b == b':') ≡ false = ground arith in
      elim (Bool-cases (b == b'.')) [
        | inl o ↦ rw (d, c, o) (ap some (marked-eq f (ground arith) (ground arith) (ground arith)))
        | inr o ↦ elim (Bool-cases (b == b'-')) [
          | inl h ↦
              rw (d, c, o, h) (ap some (marked-eq f (ground arith) (ground arith) (ground arith)))
          | inr h ↦
              let l : (b == b'[') ≡ false = ground arith in
              let r : (b == b']') ≡ false = ground arith in
              let z : is_alpha b ≡ true = ground arith in
              rw (d, c, o, h, l, r, z)
                (ap some (marked-eq f (ground arith) (ground arith) (ground arith)))
        ]
      ]
]

classify_each-name :
    (bs rest : List ℕ) (f : AddressFlags)
    → name_bytes bs ≡ true
    → classify_each (bs ++ rest) f ≡ classify_each rest (with_name bs f)
unfolding classify_each
classify_each-name [] rest f e =
    ap (classify_each rest) (marked-eq f (ground arith) (ground arith) (ground arith))
classify_each-name (b ∷ bs) rest f e = rw (classify-name b f (ground arith)) (
    classify_each-name bs rest _ (ground arith)
    ∙ ap (classify_each rest) (marked-eq f (ground arith) (ground arith) (ground arith)))

name_bytes-digits : (bs : List ℕ) → all_digits bs ≡ true → name_bytes bs ≡ true
name_bytes-digits [] e = refl
name_bytes-digits (b ∷ bs) e = ground (arith, name_bytes-digits bs)

up_to-name : (bs rest : List ℕ) → name_bytes bs ≡ true → up_to b':' (bs ++ b':' ∷ rest) ≡ bs
up_to-name [] rest e = refl
up_to-name (b ∷ bs) rest e =
    let n : (b == b':') ≡ false = ground arith in
    rw (n) (ap (λ r. b ∷ r) (up_to-name bs rest (ground arith)))

from-name : (bs rest : List ℕ) → name_bytes bs ≡ true → from b':' (bs ++ b':' ∷ rest) ≡ b':' ∷ rest
from-name [] rest e = refl
from-name (b ∷ bs) rest e =
    let n : (b == b':') ≡ false = ground arith in rw (n) (from-name bs rest (ground arith))

-- The flags of a host and a port.
abbrev split_flags : (host port : List ℕ) → AddressFlags
split_flags host port = with_name port (record (with_name host no_flags) { have_split = true })

classify-split :
    (host port : List ℕ)
    → name_bytes host ≡ true
    → all_digits port ≡ true
    → classify_each (host ++ b':' ∷ port) no_flags ≡ some (split_flags host port)
unfolding classify_each classify
classify-split host port h d =
    classify_each-name host (b':' ∷ port) no_flags h
    ∙ ap (λ p. classify_each p (record (with_name host no_flags) { have_split = true }))
        (sym (append-nil port))
    ∙ classify_each-name port [] _ (name_bytes-digits port d)

bind-none :
    {A : Type 0} (o : Option A) {k : A → Option A} → ((a : A) → k a ≡ none) → (o >>= k) ≡ none
bind-none none h = refl
bind-none (some a) h = h a

classify_each-bad :
    (before after : List ℕ) (b : ℕ) (f : AddressFlags)
    → is_name_byte b ≡ false
    → (b == b':') ≡ false
    → (b == b'[') ≡ false
    → (b == b']') ≡ false
    → classify_each (before ++ b ∷ after) f ≡ none
unfolding classify_each classify
classify_each-bad [] after b f n c l r =
    let d : is_digit b ≡ false = ground arith in
    let o : (b == b'.') ≡ false = ground arith in
    let h : (b == b'-') ≡ false = ground arith in
    let z : is_alpha b ≡ false = ground arith in rw (d, c, o, h, l, r, z) refl
classify_each-bad (x ∷ bs) after b f n c l r =
    bind-none (classify x f) (λ g. classify_each-bad bs after b g n c l r)

module _ (htons : ℕ → ℕ) (atoi inet_addr : List ℕ → ℕ) (gethostbyname : List ℕ → Option ℕ)
    (inet_pton : List ℕ → Option Words) (mapped : ℕ) where
  -- For a host name of letters, digits, dots and hyphens, with a letter or a hyphen among them, a
  -- colon, and a port of digits, less than 128 bytes in all, `get_target_address` returns 0 with the
  -- number of the port and the address of the host, which is 0 if the host is not found.
  pub target-host_port :
      (info : TcpipInfo) (host port : List ℕ)
      → name_bytes host ≡ true
      → has_letter host ≡ true
      → all_digits port ≡ true
      → length (host ++ b':' ∷ port) < 128
      → get_target_address htons atoi inet_addr gethostbyname inet_pton mapped info
          (host ++ b':' ∷ port)
        ≡ returns (pos 0) (
            set_host (gethostbyname host) (record {
              port = htons (atoi port);
              ipv6_0 = 0;
              ipv6_1 = 0;
              ipv6_2 = mapped;
              tii_address = 0;
            }))
  unfolding get_target_address target split_target
  target-host_port info host port h a d small =
      let f = split_flags host port in
      let n : is_number f ≡ false = ground arith in
      let o : is_dotted f ≡ false = ground arith in
      let m : is_name f ≡ false = ground arith in
      let s : ltb (length (host ++ b':' ∷ port)) 128 ≡ true = ground arith in
      rw
        (classify-split host port h d, n, o, m, s, a, up_to-name host port h, from-name host port h)
        refl

  -- A byte that is neither allowed in a host name nor a colon or a bracket makes `get_target_address`
  -- return -1 and leave what it is to fill in as it was, wherever it stands in the address.
  pub target-bad_byte :
      (info : TcpipInfo) (before after : List ℕ) (b : ℕ)
      → is_name_byte b ≡ false
      → (b == b':') ≡ false
      → (b == b'[') ≡ false
      → (b == b']') ≡ false
      → get_target_address htons atoi inet_addr gethostbyname inet_pton mapped info
          (before ++ b ∷ after)
        ≡ returns (negsuc 0) info
  unfolding get_target_address
  target-bad_byte info before after b n c l r =
      rw (classify_each-bad before after b no_flags n c l r) refl
