-- ===== src/Port/Invariant.antt =====
-- The invariant of the objects of tx_completion_port.cpp: who holds each of them.
use libtx.Common.{
  ℕ, ◌+◌, ◌≤◌, ◌<◌, ◌≡◌, refl, Bool, true, false, not, ◌&&◌, ◌==◌, Option, none, some, List, [],
  ◌∷◌, arith, update,
}
use libtx.Common.Int.{pos}
use libtx.Aiocb.{Aiocb}
use libtx.Aiocb.Weights.{is_in, NoRepeat}
use libtx.Epoll.Count.{bit}
use libtx.Port.{Overlapped, Flight, Port, remove_object}

abbrev pub is_some : Option ℕ → Bool
is_some none = false
is_some (some a) = true

-- How many hold an object: its descriptor, and the operations in flight.
abbrev pub holders : Overlapped → Flight → ℕ
holders o n = bit (is_some o.tx_filp) + n.sends + n.recvs

-- A descriptor that is attached has an object of its own, whose operations in flight are those that
-- its flags tell. The count of an object is the number of those that hold it, and it is allocated as
-- long as there are any.
pub record Inv (port : Port) (filps : ℕ → Aiocb) : Type 0 where
  pub attached :
      (f : ℕ)
      → is_some (port.privp f) ≡ ((filps f).tx_flags.attached && not (filps f).tx_flags.detached)
  pub owned :
      (f p : ℕ)
      → port.privp f ≡ some p
      → (port.alive p ≡ true) × ((port.objects p).tx_filp ≡ some f)
  pub owner :
      (f p : ℕ) → port.alive p ≡ true → (port.objects p).tx_filp ≡ some f → port.privp f ≡ some p
  pub flagged :
      (f p : ℕ)
      → port.privp f ≡ some p
      → ((port.in_flight p).sends ≡ bit (filps f).tx_flags.pollout)
        × ((port.in_flight p).recvs ≡ bit (filps f).tx_flags.pollin)
  pub single : (p : ℕ) → ((port.in_flight p).sends ≤ 1) × ((port.in_flight p).recvs ≤ 1)
  pub counted :
      (p : ℕ)
      → port.alive p ≡ true
      → (port.objects p).tx_refcnt ≡ pos (holders (port.objects p) (port.in_flight p))
  pub held : (p : ℕ) → port.alive p ≡ true → 0 < holders (port.objects p) (port.in_flight p)
  pub landed :
      (p : ℕ)
      → port.alive p ≡ false
      → ((port.in_flight p).sends ≡ 0) × ((port.in_flight p).recvs ≡ 0)
  pub listed : (p : ℕ) → is_in p port.port_list ≡ port.alive p
  pub once : NoRepeat port.port_list

-- The flags of the descriptors that matter here are as they were.
abbrev pub SameFlags : (f g : ℕ → Aiocb) → Type 0
SameFlags f g =
    (q : ℕ)
    → ((g q).tx_flags.attached ≡ (f q).tx_flags.attached)
      × ((g q).tx_flags.detached ≡ (f q).tx_flags.detached)
      × ((g q).tx_flags.pollin ≡ (f q).tx_flags.pollin)
      × ((g q).tx_flags.pollout ≡ (f q).tx_flags.pollout)

pub SameFlags-Inv :
    {port : Port} {filps : ℕ → Aiocb} (g : ℕ → Aiocb)
    → SameFlags filps g
    → Inv port filps
    → Inv port g
SameFlags-Inv g same v = record {
  attached = λ f. ground (arith, v.attached f, same f);
  owned = v.owned;
  owner = v.owner;
  flagged = λ f p e. ground (arith, v.flagged f p, same f);
  single = v.single;
  counted = v.counted;
  held = v.held;
  landed = v.landed;
  listed = v.listed;
  once = v.once;
}

-- An object changes in what does not count.
abbrev pub SameHeld : (o o' : Overlapped) → Type 0
SameHeld o o' = (o'.tx_refcnt ≡ o.tx_refcnt) × (o'.tx_filp ≡ o.tx_filp)

pub set_object-Inv :
    {port : Port} {filps : ℕ → Aiocb} (p : ℕ) (o : Overlapped)
    → SameHeld (port.objects p) o
    → Inv port filps
    → Inv (record port { objects = update port.objects p o }) filps
set_object-Inv p o same v = record {
  attached = v.attached;
  owned = λ f q e. ground (arith, v.owned f q);
  owner = λ f q a e. ground (arith, v.owner f q);
  flagged = v.flagged;
  single = v.single;
  counted = λ q a. ground (arith, v.counted q);
  held = λ q a. ground (arith, v.held q);
  landed = v.landed;
  listed = v.listed;
  once = v.once;
}

-- What an `AcceptEx` has been given does not count.
pub set_flight-Inv :
    {port : Port} {filps : ℕ → Aiocb} (p : ℕ) (n : Flight)
    → n.sends ≡ (port.in_flight p).sends
    → n.recvs ≡ (port.in_flight p).recvs
    → Inv port filps
    → Inv (record port { in_flight = update port.in_flight p n }) filps
set_flight-Inv p n a b v = record {
  attached = v.attached;
  owned = v.owned;
  owner = v.owner;
  flagged = λ f q e. ground (arith, v.flagged f q);
  single = λ q. ground (arith, v.single q);
  counted = λ q h. ground (arith, v.counted q);
  held = λ q h. ground (arith, v.held q);
  landed = λ q h. ground (arith, v.landed q);
  listed = v.listed;
  once = v.once;
}

pub is_in-remove :
    (p q : ℕ) (xs : List ℕ) → is_in q (remove_object p xs) ≡ (is_in q xs && not (q == p))
unfolding remove_object
is_in-remove p q [] = refl
is_in-remove p q (x ∷ xs) = ground (arith, is_in-remove p q xs)

pub NoRepeat-remove : (p : ℕ) (xs : List ℕ) → NoRepeat xs → NoRepeat (remove_object p xs)
unfolding remove_object
NoRepeat-remove p [] d = tt
NoRepeat-remove p (x ∷ xs) d = ground (arith, is_in-remove p x xs, NoRepeat-remove p xs)
