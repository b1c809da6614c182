-- ===== src/Target.antt =====
-- `get_target_address` of tx_platform.cpp: an address that is given as a port, a host, or both.
--
-- A text is the list of its bytes. `host` is a buffer of 128 bytes, and a write behind it is the
-- outcome `overrun`. Parameters are `htons`, the value of `atoi` as an `unsigned short`, `inet_addr`,
-- the first address that `gethostbyname` returns, and the four words of `inet_pton (AF_INET6)`, or
-- `none` if it returns 0; `mapped` is `htonl (0xffff)`.
pub mod Hosts
pub mod Room
mod Tests
use libtx.Common.{
  ℕ, suc, Bool, true, false, not, ◌&&◌, ◌||◌, ◌==◌, leb, ltb, Option, none, some, List, [], ◌∷◌,
  if◌then◌else◌, length,
}
use libtx.Common.Int.{ℤ, pos, negsuc}
use libtx.Inet.{is_digit, ◌>>=◌}

abbrev pub is_alpha : ℕ → Bool
is_alpha ch = (leb b'A' ch && leb ch b'Z') || (leb b'a' ch && leb ch b'z')

-- FLAG_HAVE_DOT to FLAG_HAVE_RIGHT.
pub record AddressFlags : Type 0 where
  pub have_dot : Bool
  pub have_alpha : Bool
  pub have_number : Bool
  pub have_split : Bool
  pub have_ipv6 : Bool
  pub have_left : Bool
  pub have_right : Bool

abbrev pub no_flags : AddressFlags
no_flags = record {
  have_dot = false;
  have_alpha = false;
  have_number = false;
  have_split = false;
  have_ipv6 = false;
  have_left = false;
  have_right = false;
}

-- `ipv6` is the array of four words, the last of which is `tii_address`.
pub record TcpipInfo : Type 0 where
  pub port : ℕ
  pub ipv6_0 : ℕ
  pub ipv6_1 : ℕ
  pub ipv6_2 : ℕ
  pub tii_address : ℕ

pub record Words : Type 0 where
  pub word_0 : ℕ
  pub word_1 : ℕ
  pub word_2 : ℕ
  pub word_3 : ℕ

pub data Outcome : Type 0 where
  returns : ℤ → TcpipInfo → Outcome
  overrun : Outcome

-- One round of the `for`; `none` is `return -1`.
unfoldable pub classify : ℕ → AddressFlags → Option AddressFlags
classify ch f =
    if is_digit ch
    then some (record f { have_number = true })
    else if ch == b':' && f.have_split
    then some (record f { have_ipv6 = true })
    else if ch == b':'
    then some (record f { have_split = true })
    else if ch == b'.'
    then some (record f { have_dot = true })
    else if ch == b'-'
    then some (record f { have_alpha = true })
    else if ch == b'['
    then some (record f { have_left = true })
    else if ch == b']'
    then some (record f { have_right = true })
    else if is_alpha ch
    then some (record f { have_alpha = true })
    else none

unfoldable pub classify_each : List ℕ → AddressFlags → Option AddressFlags
classify_each [] f = some f
classify_each (ch ∷ last) f = classify ch f >>= λ g. classify_each last g

-- Neither FLAG_HAVE_SPLIT nor a flag above it.
abbrev pub no_marks : AddressFlags → Bool
no_marks f = not f.have_split && not f.have_ipv6 && not f.have_left && not f.have_right

abbrev pub is_number : AddressFlags → Bool
is_number f = f.have_number && not f.have_dot && not f.have_alpha && no_marks f

abbrev pub is_dotted : AddressFlags → Bool
is_dotted f = f.have_number && f.have_dot && not f.have_alpha && no_marks f

abbrev pub is_name : AddressFlags → Bool
is_name f = f.have_alpha && f.have_dot && no_marks f

-- A text up to the first byte `c`, and from there on, as `strchr` finds it.
abbrev pub up_to : ℕ → List ℕ → List ℕ
up_to c [] = []
up_to c (x ∷ xs) = let rest = up_to c xs in if x == c then [] else x ∷ rest

abbrev pub from : ℕ → List ℕ → List ℕ
from c [] = []
from c (x ∷ xs) = let rest = from c xs in if x == c then x ∷ xs else rest

abbrev pub bracketed : List ℕ → Bool
bracketed [] = false
bracketed (x ∷ xs) = x == b'['

abbrev pub after_first : List ℕ → List ℕ
after_first [] = []
after_first (x ∷ xs) = xs

-- Puts a byte in front of what has been copied.
abbrev pub put_byte : ℕ → Option (List ℕ × List ℕ) → Option (List ℕ × List ℕ)
put_byte x none = none
put_byte x (some (host, rest)) = some (x ∷ host, rest)

-- The `while` that copies into `host` from the index `i` on, and the 0 behind what is copied: the
-- text in `host`, and where `address` is left. `none` is a write behind `host[127]`.
unfoldable pub copy_host : (end i : ℕ) → List ℕ → Option (List ℕ × List ℕ)
copy_host end i [] = if ltb i 128 then some ([], []) else none
copy_host end i (x ∷ xs) =
    let copies = copy_host end (suc i) xs in
    if ltb i 128 then if x == end then some ([], x ∷ xs) else put_byte x copies else none

-- `end`, and the address without the bracket in front.
abbrev pub end_of : List ℕ → ℕ
end_of address = if bracketed address then b']' else 0

abbrev pub unbracketed : List ℕ → List ℕ
unbracketed address = if bracketed address then after_first address else address

-- What follows `]:`.
abbrev pub after_bracket : List ℕ → Option (List ℕ)
after_bracket (b ∷ c ∷ rest) = if b == b']' && c == b':' then some rest else none
after_bracket _ = none

abbrev pub clear : TcpipInfo → TcpipInfo
clear info = record info { ipv6_0 = 0; ipv6_1 = 0; ipv6_2 = 0; tii_address = 0 }

abbrev pub set_words : Words → TcpipInfo → TcpipInfo
set_words w info = record info {
  ipv6_0 = w.word_0;
  ipv6_1 = w.word_1;
  ipv6_2 = w.word_2;
  tii_address = w.word_3;
}

-- `if (host0 != NULL) memcpy (&info->tii_address, host0->h_addr, 4)`.
abbrev pub set_host : Option ℕ → TcpipInfo → TcpipInfo
set_host none info = info
set_host (some h) info = record info { tii_address = h }

module _ (htons : ℕ → ℕ) (atoi inet_addr : List ℕ → ℕ) (gethostbyname : List ℕ → Option ℕ)
    (inet_pton : List ℕ → Option Words) (mapped : ℕ) where
  abbrev pub set_port_after : Option (List ℕ) → TcpipInfo → TcpipInfo
  set_port_after none info = info
  set_port_after (some text) info = record info { port = htons (atoi text) }

  abbrev pub read_words : Option Words → TcpipInfo → Outcome
  read_words none info = returns (pos 0) info
  read_words (some w) info = returns (pos 1) (set_words w info)

  -- What the branch of FLAG_HAVE_IPV6 does once `host` is copied.
  abbrev pub read_host : Option (List ℕ × List ℕ) → TcpipInfo → Outcome
  read_host none info = overrun
  read_host (some (host, rest)) info =
      read_words (inet_pton host) (set_port_after (after_bracket rest) info)

  -- The branch of FLAG_HAVE_IPV6.
  unfoldable pub ipv6_target : List ℕ → TcpipInfo → Outcome
  unfolding copy_host
  ipv6_target address info = read_host (copy_host (end_of address) 0 (unbracketed address)) info

  -- The branch of FLAG_HAVE_SPLIT.
  unfoldable pub split_target : Bool → List ℕ → TcpipInfo → TcpipInfo
  split_target have_alpha address info =
      let i = record info { port = htons (atoi (after_first (from b':' address))) } in
      let host = up_to b':' address in
      if ltb (length address) 128
      then if have_alpha
        then set_host (gethostbyname host) i
        else record i { tii_address = inet_addr host }
      else i

  -- What is done with the flags of the address.
  unfoldable pub target : AddressFlags → List ℕ → TcpipInfo → Outcome
  unfolding ipv6_target split_target
  target f address info =
      let m = record (clear info) { ipv6_2 = mapped } in
      if is_number f
      then returns (pos 0) (record info { port = htons (atoi address) })
      else if f.have_ipv6
      then ipv6_target address (clear info)
      else if is_dotted f
      then returns (pos 0) (record m { tii_address = inet_addr address })
      else if is_name f
      then returns (pos 0) (set_host (gethostbyname address) m)
      else if f.have_split
      then returns (pos 0) (split_target f.have_alpha address m)
      else returns (pos 0) m

  abbrev pub target_if : Option AddressFlags → List ℕ → TcpipInfo → Outcome
  target_if none address info = returns (negsuc 0) info
  target_if (some f) address info = target f address info

  unfoldable pub get_target_address : TcpipInfo → List ℕ → Outcome
  unfolding classify_each
  get_target_address info address = target_if (classify_each address no_flags) address info
