-- ===== src/Worker/Relayed.antt =====
-- What `callback` of netcat-win32.cpp passes on, and that it goes on or ends.
use libtx.Common.{
  ◌==◌, length, take, drop, take-append-drop, drop-length, if_cases, ℕ, ◌<◌, ◌≡◌, ◌⊎◌, inl, inr,
  refl, sym, ap, ◌∙◌, Bool, true, false, Option, none, some, List, [], ◌∷◌, ◌++◌, if◌then◌else◌,
  arith, subst,
}
use mathlib.Core.List.{append-nil, append_assoc}
use libtx.Pipling.{Received, bytes, refused}
use libtx.Worker.{
  WriteResult, write_failed, wrote, take_out, Action, zero_read, cool_read, byte_write, Which,
  receiving, sending, Relay, data_of, do_post_quit, do_post_send, do_post_recv, receive, copy_out,
  pass_in, Answers, read_first, act, callback, unposted,
}

abbrev pub is_write : Action → Bool
is_write zero_read = false
is_write cool_read = false
is_write byte_write = true

-- Each `IO_DATA` keeps to its direction. All that has been received has been written, or what has been
-- written is the beginning of it and nothing is in flight that could receive more.
pub record Inv (s : Relay) : Type 0 where
  pub reads : is_write s.recv_data.action ≡ false
  pub writes : is_write s.send_data.action ≡ true
  pub relayed :
      (s.out ≡ s.came)
      ⊎ ((s.recv_data.posted ≡ false) × ((rest : List ℕ) × (s.out ++ rest ≡ s.came)))

-- There is an operation in flight again, the threads are told to end, or the system has refused it.
abbrev pub Moves : Which → Bool → Relay → Type 0
Moves w ok s = ((data_of w s).posted ≡ true) ⊎ ((0 < s.quits) ⊎ (ok ≡ false))

-- The operation that is reported has ended, and what its buffer holds is yet to be written.
record Holding (bs : List ℕ) (s : Relay) : Type 0 where
  reads : is_write s.recv_data.action ≡ false
  writes : is_write s.send_data.action ≡ true
  ended : s.recv_data.posted ≡ false
  holds : s.out ++ bs ≡ s.came

is_write-recv : (zero_copy : Bool) → is_write (if zero_copy then zero_read else cool_read) ≡ false
is_write-recv true = refl
is_write-recv false = refl

quit-Inv :
    {bs : List ℕ} (ok : Bool) (s : Relay)
    → Holding bs s
    → Inv (do_post_quit s) × Moves receiving ok (do_post_quit s)
unfolding do_post_quit
quit-Inv {bs} ok s h = (
  record { reads = h.reads; writes = h.writes; relayed = inr (h.ended, (bs, h.holds)) },
  inr (inl (ground arith)),
)

post-Moves :
    (zero_copy ok : Bool) (w : Which) (s : Relay) → Moves w ok (do_post_recv zero_copy ok w s)
unfolding do_post_recv
post-Moves zero_copy true receiving s = inl refl
post-Moves zero_copy true sending s = inl refl
post-Moves zero_copy false w s = inr (inr refl)

post-Inv :
    (zero_copy ok : Bool) (s : Relay)
    → Holding [] s
    → Inv (do_post_recv zero_copy ok receiving s)
      × Moves receiving ok (do_post_recv zero_copy ok receiving s)
unfolding do_post_recv
post-Inv zero_copy ok s h = (
  record {
    reads = is_write-recv zero_copy;
    writes = h.writes;
    relayed = inl (sym (append-nil s.out) ∙ h.holds);
  },
  post-Moves zero_copy ok receiving s,
)

-- A write takes some of the bytes, and leaves the others.
take_out-Holding :
    (n : ℕ) (bs : List ℕ) (s : Relay) → Holding bs s → Holding (drop n bs) (take_out n bs s)
take_out-Holding n bs s h = record {
  reads = h.reads;
  writes = h.writes;
  ended = h.ended;
  holds =
      append_assoc s.out (take n bs) (drop n bs)
      ∙ ap (λ r. s.out ++ r) (take-append-drop n bs)
      ∙ h.holds;
}

all_out-Holding :
    (n : ℕ) (bs : List ℕ) (s : Relay) → n ≡ length bs → Holding bs s → Holding [] (take_out n bs s)
all_out-Holding n bs s e h =
    subst (λ r. Holding r (take_out n bs s)) (ap (λ k. drop k bs) e ∙ drop-length bs)
      (take_out-Holding n bs s h)

receive-Holding : (bs : List ℕ) (s : Relay) → Holding [] s → Holding bs (receive bs s)
receive-Holding bs s h = record {
  reads = h.reads;
  writes = h.writes;
  ended = h.ended;
  holds = ap (λ r. r ++ bs) (sym (append-nil s.out) ∙ h.holds);
}

copy_out-Inv :
    (zero_copy ok : Bool) (bs : List ℕ) (answers : List (WriteResult × Received)) (s : Relay)
    → Holding bs s
    → Inv (copy_out zero_copy ok receiving bs answers s)
      × Moves receiving ok (copy_out zero_copy ok receiving bs answers s)
unfolding copy_out
copy_out-Inv zero_copy ok [] answers s h = quit-Inv ok s h
copy_out-Inv zero_copy ok (b ∷ bs) [] s h =
    post-Inv zero_copy ok (take_out (length (b ∷ bs)) (b ∷ bs) s)
      (all_out-Holding (length (b ∷ bs)) (b ∷ bs) s refl h)
copy_out-Inv zero_copy ok (b ∷ bs) ((write_failed, r) ∷ answers) s h = quit-Inv ok s h
copy_out-Inv zero_copy ok (b ∷ bs) ((wrote n, refused true) ∷ answers) s h =
    if_cases (λ u. Inv u × Moves receiving ok u) (n == length (b ∷ bs))
      (λ e.
        post-Inv zero_copy ok (take_out n (b ∷ bs) s)
          (all_out-Holding n (b ∷ bs) s (ground (arith, e)) h))
      (λ _. quit-Inv ok (take_out n (b ∷ bs) s) (take_out-Holding n (b ∷ bs) s h))
copy_out-Inv zero_copy ok (b ∷ bs) ((wrote n, refused false) ∷ answers) s h =
    quit-Inv ok (take_out n (b ∷ bs) s) (take_out-Holding n (b ∷ bs) s h)
copy_out-Inv zero_copy ok (b ∷ bs) ((wrote n, bytes next) ∷ answers) s h =
    if_cases (λ u. Inv u × Moves receiving ok u) (n == length (b ∷ bs))
      (λ e. copy_out-Inv zero_copy ok next answers (receive next (take_out n (b ∷ bs) s)) (
        receive-Holding next (take_out n (b ∷ bs) s)
          (all_out-Holding n (b ∷ bs) s (ground (arith, e)) h)))
      (λ _. quit-Inv ok (take_out n (b ∷ bs) s) (take_out-Holding n (b ∷ bs) s h))

-- What holds of what `callback` returns.
abbrev Returned : Which → Bool → Option Relay → Type 0
Returned w ok none = Unit
Returned w ok (some s) = Inv s × Moves w ok s

act_reading :
    (zero_copy : Bool) (a : Answers) (transfer : List ℕ) (x : Action) (s : Relay)
    → is_write x ≡ false
    → Holding [] s
    → Returned receiving a.post_ok (act zero_copy a receiving transfer x s)
act_reading zero_copy a (b ∷ bs) zero_read s e h = tt
act_reading zero_copy a [] zero_read s e h = first a.first
  where
    first :
        (r : Received) → Returned receiving a.post_ok (some (read_first zero_copy a receiving r s))
    first (refused again) = quit-Inv a.post_ok s h
    first (bytes bs) =
        copy_out-Inv zero_copy a.post_ok bs a.answers (receive bs s) (receive-Holding bs s h)
act_reading zero_copy a transfer cool_read s e h =
    copy_out-Inv zero_copy a.post_ok transfer a.answers (receive transfer s)
      (receive-Holding transfer s h)
act_reading zero_copy a transfer byte_write s e h = absurd (ground (arith, e))

pass_in-Inv :
    (ok : Bool) (input : Option (List ℕ)) (s : Relay)
    → Inv s
    → Inv (pass_in ok sending input s) × Moves sending ok (pass_in ok sending input s)
unfolding do_post_quit do_post_send
pass_in-Inv ok none s v =
    (record { reads = v.reads; writes = v.writes; relayed = v.relayed }, inr (inl (ground arith)))
pass_in-Inv ok (some []) s v =
    (record { reads = v.reads; writes = v.writes; relayed = v.relayed }, inr (inl (ground arith)))
pass_in-Inv true (some (b ∷ bs)) s v =
    (record { reads = v.reads; writes = refl; relayed = v.relayed }, inl refl)
pass_in-Inv false (some (b ∷ bs)) s v =
    (record { reads = v.reads; writes = refl; relayed = v.relayed }, inr (inr refl))

act_writing :
    (zero_copy : Bool) (a : Answers) (transfer : List ℕ) (x : Action) (s : Relay)
    → is_write x ≡ true
    → Inv s
    → Returned sending a.post_ok (act zero_copy a sending transfer x s)
act_writing zero_copy a transfer byte_write s e v = pass_in-Inv a.post_ok a.input s v
act_writing zero_copy a transfer zero_read s e v = absurd (ground (arith, e))
act_writing zero_copy a transfer cool_read s e v = absurd (ground (arith, e))

-- The part of the invariant that is left when the operation of `recv_data` has been reported.
unposted-Holding :
    (s : Relay) → Inv s → s.recv_data.posted ≡ true → Holding [] (unposted receiving s)
unposted-Holding s v p = elim v.relayed [
  | inl e ↦ record {
    reads = v.reads;
    writes = v.writes;
    ended = refl;
    holds = append-nil s.out ∙ e;
  }
  | inr h ↦ absurd (ground (arith, p, h.0))
]

callback-Returned :
    (zero_copy : Bool) (a : Answers) (w : Which) (transfer : List ℕ) (s : Relay)
    → Inv s
    → (data_of w s).posted ≡ true
    → Returned w a.post_ok (callback zero_copy a w transfer (unposted w s))
unfolding callback
callback-Returned zero_copy a receiving transfer s v p =
    act_reading zero_copy a transfer s.recv_data.action (unposted receiving s) v.reads
      (unposted-Holding s v p)
callback-Returned zero_copy a sending transfer s v p =
    act_writing zero_copy a transfer s.send_data.action (unposted sending s) v.writes
      (record { reads = v.reads; writes = v.writes; relayed = v.relayed })

-- When an operation in flight is reported and the invariant holds, it holds again when `callback`
-- returns: all that has been received has been written, or what has been written is the beginning of
-- it and nothing is in flight that could receive more. And then there is an operation in flight again
-- for the same `IO_DATA`, or packets have been posted for the threads to end, or the system has refused
-- the operation.
pub callback-Inv :
    (zero_copy : Bool) (a : Answers) (w : Which) (transfer : List ℕ) (s u : Relay)
    → Inv s
    → (data_of w s).posted ≡ true
    → callback zero_copy a w transfer (unposted w s) ≡ some u
    → Inv u × Moves w a.post_ok u
callback-Inv zero_copy a w transfer s u v p e =
    subst (Returned w a.post_ok) e (callback-Returned zero_copy a w transfer s v p)
