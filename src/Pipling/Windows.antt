-- ===== src/Pipling/Windows.antt =====
-- Writing by `tx_outcb_write` (tx_aiocb.cpp) when the poller is the completion port
-- (tx_completion_port.cpp), as in netcat.cpp.
use libtx.Common.{
  ℕ, zero, suc, ◌≤◌, ◌<◌, ◌≡◌, Bool, true, false, ◌&&◌, ltb, Option, none, some, List, [], ◌∷◌,
  length, take, if_cases, arith, subst,
}
use libtx.Common.Int.{ℤ, pos, negsuc}
use libtx.Inet.{◌>>=◌}
use libtx.Aiocb.{Net, flags_at, tx_outcb_write}
use libtx.Port.{Port, object_of, is_attached, below_four, start_send}
use libtx.Port.Calls.{stage, send_staged, send_if, tx_completion_port_sendout}
use libtx.Pipling.Conserved.{Sends}

-- What the system answers to `send` and `WSASend`.
pub record Answer : Type 0 where
  pub memlock : Bool
  pub sent : ℕ
  pub accepted : Bool

abbrev pub port_write :
    (ℕ → List ℕ → Net Port → Answer) → ℕ → List ℕ → Net Port → Option (ℤ × Net Port)
port_write answer t xs s =
    let a = answer t (take 8192 xs) s in
    tx_outcb_write (some (tx_completion_port_sendout a.memlock a.sent a.accepted)) (pos 0) false t
      xs s

-- The number that is returned, if any, is of bytes that were there.
abbrev Some : ℕ → Option (ℤ × Net Port) → Type 0
Some len none = Unit
Some len (some (pos n, t)) = (0 < n) × (n ≤ len)
Some len (some (negsuc n, t)) = Unit

send_if-Some :
    (accepted : Bool) (f p len : ℕ) (s : Net Port) (m : Option (Net Port))
    → 0 < len
    → Some len (send_if accepted f p len s m)
unfolding send_staged
send_if-Some accepted f p len s none h = tt
send_if-Some true f p len s (some t) h =
    if_cases (λ m. Some len (m >>= λ u. some (pos len, u)))
      (below_four ((start_send f p t).poll.objects p).tx_refcnt) (λ _. (h, ground arith)) (λ _. tt)
send_if-Some false f p len s (some t) h = tt

object-Some :
    (len : ℕ) (m : Option ℕ) (k : ℕ → Option (ℤ × Net Port))
    → ((p : ℕ) → Some len (k p))
    → Some len (m >>= k)
object-Some len none k h = tt
object-Some len (some p) k h = h p

sendout-Some :
    (memlock : Bool) (sent : ℕ) (accepted : Bool) (f : ℕ) (buf : List ℕ) (s : Net Port)
    → sent ≤ length buf
    → Some (length buf) (tx_completion_port_sendout memlock sent accepted f buf s)
unfolding tx_completion_port_sendout
sendout-Some memlock sent accepted f buf s l =
    if_cases (Some (length buf)) (flags_at s f).pollout (λ _. tt)
      (λ _.
        if_cases (Some (length buf)) (is_attached f s && ltb 0 (length buf))
          (λ h.
            if_cases (Some (length buf)) (ltb 0 sent) (λ k. (ground (arith, k), l))
              (λ _. object-Some (length buf) (object_of f s) _ (λ p.
                send_if-Some accepted f p (length buf) s (stage memlock p buf s)
                  (ground (arith, h)))))
          (λ _. tt))

length-take : (n : ℕ) (xs : List ℕ) → length (take n xs) ≤ length xs
length-take zero xs = omega arith
length-take (suc n) [] = omega arith
length-take (suc n) (x ∷ xs) = omega (arith, length-take n xs)

Some-pos :
    (len n : ℕ) (u : Net Port) (m : Option (ℤ × Net Port))
    → Some len m
    → m ≡ some (pos n, u)
    → (0 < n) × (n ≤ len)
Some-pos len n u m h e = subst (Some len) e h

-- If `send` takes no more than it is given, `tx_outcb_write` by the completion port takes, where it
-- returns a number of bytes, some of what it is given and no more.
pub port_write-Sends :
    (answer : ℕ → List ℕ → Net Port → Answer)
    → (write_file : List ℕ → Net Port → Option ℕ × Net Port)
    → ((t : ℕ) (xs : List ℕ) (s : Net Port) → (answer t xs s).sent ≤ length xs)
    → ((n : ℕ) (xs : List ℕ) (s : Net Port)
        → 0 < length xs
        → (write_file xs s).0 ≡ some n
        → (0 < n) × (n ≤ length xs))
    → Sends (port_write answer) write_file
unfolding tx_outcb_write
port_write-Sends answer write_file l files = record {
  sends = λ t n xs s u h e.
      let a = answer t (take 8192 xs) s in
      let p =
        Some-pos (length (take 8192 xs)) n u _
          (sendout-Some a.memlock a.sent a.accepted t (take 8192 xs) s (l t (take 8192 xs) s)) e in
      (p.0, ground (arith, p.1, length-take 8192 xs));
  files = files;
}
