-- ===== src/Target/Room.antt =====
-- Addresses and the buffer of `get_target_address` (tx_platform.cpp).
use libtx.Common.{
  ℕ, suc, ◌+◌, ◌≤◌, ◌<◌, ◌≡◌, ◌==◌, ◌&&◌, ◌||◌, refl, true, false, Bool, Option, none, some, List,
  [], ◌∷◌, ltb, length, if◌then◌else◌, if_cases, arith, Bool-cases, inl, inr,
}
use libtx.Inet.{is_digit}
use libtx.Target.{
  AddressFlags, TcpipInfo, Words, Outcome, returns, overrun, bracketed, end_of, unbracketed,
  put_byte, copy_host, clear, is_number, is_dotted, is_name, classify, classify_each, no_flags,
  read_host, ipv6_target, target, target_if, get_target_address, read_words,
}
use libtx.Target.Hosts.{is_name_byte, classify-name}

abbrev pub inside : Outcome → Bool
inside (returns r i) = true
inside overrun = false

abbrev fits : Option (List ℕ × List ℕ) → Bool
fits none = false
fits (some copies) = true

put_byte-fits : (x : ℕ) (o : Option (List ℕ × List ℕ)) → fits o ≡ true → fits (put_byte x o) ≡ true
put_byte-fits x none e = e
put_byte-fits x (some (host, rest)) e = refl

copy_host-fits : (end i : ℕ) (a : List ℕ) → i + length a < 128 → fits (copy_host end i a) ≡ true
unfolding copy_host
copy_host-fits end i [] h = let e : ltb i 128 ≡ true = ground arith in rw (e) refl
copy_host-fits end i (x ∷ xs) h =
    let e : ltb i 128 ≡ true = ground arith in
    rw (e) (
      if_cases (λ o. fits o ≡ true) (x == end) (λ _. refl)
        (λ _. put_byte-fits x _ (copy_host-fits end (suc i) xs (omega arith))))

length-unbracketed : (a : List ℕ) → length (unbracketed a) ≤ length a
length-unbracketed [] = omega arith
length-unbracketed (x ∷ xs) = ground arith

-- A byte of an address: of a host name, or a colon.
abbrev is_address_byte : ℕ → Bool
is_address_byte b = is_name_byte b || b == b':'

abbrev pub address_bytes : List ℕ → Bool
address_bytes [] = true
address_bytes (b ∷ bs) = is_address_byte b && address_bytes bs

abbrev pub colons : List ℕ → ℕ
colons [] = 0
colons (b ∷ bs) = let rest = colons bs in if b == b':' then suc rest else rest

copy_host-none :
    (i : ℕ) (a : List ℕ) → address_bytes a ≡ true → 128 ≤ i + length a → copy_host 0 i a ≡ none
unfolding copy_host
copy_host-none i [] e h = let g : ltb i 128 ≡ false = ground arith in rw (g) refl
copy_host-none i (x ∷ xs) e h =
    let n : (x == 0) ≡ false = ground arith in
    if_cases (λ o. o ≡ none) (ltb i 128)
      (λ _. rw (n, copy_host-none (suc i) xs (ground arith) (omega arith)) refl) (λ _. refl)

unbracketed-id : (a : List ℕ) → address_bytes a ≡ true → bracketed a ≡ false
unbracketed-id [] e = refl
unbracketed-id (x ∷ xs) e = ground arith

-- How many colons, of two, the flags stand for.
abbrev seen : AddressFlags → ℕ
seen f = if f.have_ipv6 then 2 else if f.have_split then 1 else 0

abbrev ipv6_flags : Option AddressFlags → Bool
ipv6_flags none = false
ipv6_flags (some f) = f.have_ipv6

classify_each-ipv6 :
    (a : List ℕ) (f : AddressFlags)
    → address_bytes a ≡ true
    → 2 ≤ seen f + colons a
    → ipv6_flags (classify_each a f) ≡ true
unfolding classify_each classify
classify_each-ipv6 [] f e h = ground arith
classify_each-ipv6 (b ∷ bs) f e h = elim (Bool-cases (b == b':')) [
  | inl c ↦
      let d : is_digit b ≡ false = ground arith in
      elim (Bool-cases f.have_split) [
        | inl s ↦ rw (d, c, s) (classify_each-ipv6 bs _ (ground arith) (ground arith))
        | inr s ↦ rw (d, c, s) (classify_each-ipv6 bs _ (ground arith) (ground arith))
      ]
  | inr c ↦
      rw (classify-name b f (ground arith)) (classify_each-ipv6 bs _ (ground arith) (ground arith))
]

module _ (htons : ℕ → ℕ) (atoi inet_addr : List ℕ → ℕ) (gethostbyname : List ℕ → Option ℕ)
    (inet_pton : List ℕ → Option Words) (mapped : ℕ) where
  read_words-inside :
      (w : Option Words) (i : TcpipInfo)
      → inside (read_words htons atoi inet_addr gethostbyname inet_pton mapped w i) ≡ true
  read_words-inside none i = refl
  read_words-inside (some w) i = refl

  read_host-inside :
      (o : Option (List ℕ × List ℕ)) (i : TcpipInfo)
      → fits o ≡ true
      → inside (read_host htons atoi inet_addr gethostbyname inet_pton mapped o i) ≡ true
  read_host-inside none i e = e
  read_host-inside (some (host, rest)) i e = read_words-inside _ _

  ipv6-inside :
      (info : TcpipInfo) (address : List ℕ)
      → length address < 128
      → inside (ipv6_target htons atoi inet_addr gethostbyname inet_pton mapped address info) ≡ true
  unfolding ipv6_target
  ipv6-inside info address h = read_host-inside _ info (
      copy_host-fits (end_of address) 0 (unbracketed address)
        (ground (arith, length-unbracketed address)))

  flags-inside :
      (f : Option AddressFlags) (info : TcpipInfo) (address : List ℕ)
      → length address < 128
      → inside (target_if htons atoi inet_addr gethostbyname inet_pton mapped f address info) ≡ true
  unfolding target
  flags-inside none info address h = refl
  flags-inside (some f) info address h =
      if_cases (λ o. inside o ≡ true) (is_number f) (λ _. refl)
        (λ _.
          if_cases (λ o. inside o ≡ true) f.have_ipv6 (λ _. ipv6-inside (clear info) address h)
            (λ _.
              if_cases (λ o. inside o ≡ true) (is_dotted f) (λ _. refl)
                (λ _.
                  if_cases (λ o. inside o ≡ true) (is_name f) (λ _. refl)
                    (λ _. if_cases (λ o. inside o ≡ true) f.have_split (λ _. refl) (λ _. refl)))))

  -- An address of less than 128 bytes never makes `get_target_address` write behind its buffer.
  pub target-inside :
      (info : TcpipInfo) (address : List ℕ)
      → length address < 128
      → inside (get_target_address htons atoi inet_addr gethostbyname inet_pton mapped info address)
        ≡ true
  unfolding get_target_address
  target-inside info address h = flags-inside (classify_each address no_flags) info address h

  ipv6-overruns :
      (f : Option AddressFlags) (info : TcpipInfo) (address : List ℕ)
      → ipv6_flags f ≡ true
      → address_bytes address ≡ true
      → 128 ≤ length address
      → target_if htons atoi inet_addr gethostbyname inet_pton mapped f address info ≡ overrun
  unfolding target ipv6_target
  ipv6-overruns none info address v e h = ground arith
  ipv6-overruns (some f) info address v e h =
      let n : is_number f ≡ false = ground arith in
      rw (n, v, unbracketed-id address e, copy_host-none 0 address e (omega arith)) refl

  -- An address of letters, digits, dots, hyphens and colons, with two colons or more and 128 bytes or
  -- more, makes `get_target_address` write behind its buffer.
  pub long-overruns :
      (info : TcpipInfo) (address : List ℕ)
      → address_bytes address ≡ true
      → 2 ≤ colons address
      → 128 ≤ length address
      → get_target_address htons atoi inet_addr gethostbyname inet_pton mapped info address
        ≡ overrun
  unfolding get_target_address
  long-overruns info address e two h =
      ipv6-overruns (classify_each address no_flags) info address
        (classify_each-ipv6 address no_flags e (omega arith)) e h
