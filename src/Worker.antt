-- ===== src/Worker.antt =====
-- netcat-win32.cpp: the threads of a netcat with a completion port of its own.
--
-- `receiving` and `sending` are the two `IO_DATA`, with `_recv_buf` and `_send_buf`. `posted` says that
-- an operation of theirs is in flight; `came` and `out` are all the bytes that have been received from
-- the network and written to the standard output. None of the macros ENABLE_DATA_COPY and
-- DISABLE_NONBLOCK is defined; `zero_copy` says whether ENABLE_ZERO_COPY is. What the system answers is
-- an argument.
pub mod Relayed
mod Tests
use libtx.Common.{
  take, ℕ, ◌+◌, Bool, true, false, not, ◌&&◌, ◌==◌, Option, none, some, List, [], ◌∷◌, ◌++◌, length,
  if◌then◌else◌,
}
use libtx.Inet.{◌>>=◌}
use libtx.Pipling.{Received, bytes, refused}

pub data Action : Type 0 where
  zero_read : Action
  cool_read : Action
  byte_write : Action

pub record IoData : Type 0 where
  pub action : Action
  pub aiobuf : List ℕ
  pub posted : Bool

pub data Which : Type 0 where
  receiving : Which
  sending : Which

-- `quits` is how many of the packets of `do_post_quit` have been posted.
pub record Relay : Type 0 where
  pub recv_data : IoData
  pub send_data : IoData
  pub quits : ℕ
  pub came : List ℕ
  pub out : List ℕ

abbrev pub data_of : Which → Relay → IoData
data_of receiving s = s.recv_data
data_of sending s = s.send_data

abbrev pub with_data : Which → IoData → Relay → Relay
with_data receiving d s = record s { recv_data = d }
with_data sending d s = record s { send_data = d }

-- THREAD_COUNT packets.
unfoldable pub do_post_quit : Relay → Relay
do_post_quit s = record s { quits = s.quits + 2 }

-- `ok`: WSASend succeeds or is pending.
unfoldable pub do_post_send : (ok : Bool) → Which → List ℕ → Relay → Relay
do_post_send ok w buf s = with_data w (record { action = byte_write; aiobuf = buf; posted = ok }) s

-- `ok`: WSARecv succeeds or is pending.
unfoldable pub do_post_recv : (zero_copy ok : Bool) → Which → Relay → Relay
do_post_recv zero_copy ok w s =
    with_data w
      (record (data_of w s) { action = if zero_copy then zero_read else cool_read; posted = ok }) s

abbrev pub receive : List ℕ → Relay → Relay
receive bs s = record s { came = s.came ++ bs }

-- What WriteFile answers: FALSE, with which nothing is written, or how many bytes it has written.
pub data WriteResult : Type 0 where
  write_failed : WriteResult
  wrote : (transfer : ℕ) → WriteResult

abbrev pub take_out : ℕ → List ℕ → Relay → Relay
take_out n bs s = record s { out = s.out ++ take n bs }

-- The `while` of `callback`, with `bs` in the buffer, and what follows it. Each element is what
-- WriteFile answers, and the `recv` after it; behind the list WriteFile writes all, and a `recv` would
-- block. The `while` ends if WriteFile has not written all, or a `recv` fails with another error.
unfoldable pub copy_out :
    (zero_copy ok : Bool) → Which → List ℕ → List (WriteResult × Received) → Relay → Relay
unfolding do_post_quit do_post_recv
copy_out zero_copy ok w [] answers s = do_post_quit s
copy_out zero_copy ok w (b ∷ bs) [] s =
    do_post_recv zero_copy ok w (take_out (length (b ∷ bs)) (b ∷ bs) s)
copy_out zero_copy ok w (b ∷ bs) ((write_failed, r) ∷ answers) s = do_post_quit s
copy_out zero_copy ok w (b ∷ bs) ((wrote n, refused true) ∷ answers) s =
    let t = take_out n (b ∷ bs) s in
    if n == length (b ∷ bs) then do_post_recv zero_copy ok w t else do_post_quit t
copy_out zero_copy ok w (b ∷ bs) ((wrote n, refused false) ∷ answers) s =
    do_post_quit (take_out n (b ∷ bs) s)
copy_out zero_copy ok w (b ∷ bs) ((wrote n, bytes next) ∷ answers) s =
    let t = take_out n (b ∷ bs) s in
    let rest = copy_out zero_copy ok w next answers (receive next t) in
    if n == length (b ∷ bs) then rest else do_post_quit t

-- ReadFile fails with `none`.
abbrev pub pass_in : (ok : Bool) → Which → Option (List ℕ) → Relay → Relay
pass_in ok w none s = do_post_quit s
pass_in ok w (some []) s = do_post_quit s
pass_in ok w (some (b ∷ bs)) s = do_post_send ok w (b ∷ bs) s

-- What the system answers during a `callback`: to the posting of an operation, to the `recv` of a
-- read of no bytes, to ReadFile, and in `copy_out`.
pub record Answers : Type 0 where
  pub post_ok : Bool
  pub first : Received
  pub input : Option (List ℕ)
  pub answers : List (WriteResult × Received)

abbrev pub read_first : (zero_copy : Bool) → Answers → Which → Received → Relay → Relay
read_first zero_copy a w (refused again) s = do_post_quit s
read_first zero_copy a w (bytes bs) s = copy_out zero_copy a.post_ok w bs a.answers (receive bs s)

-- `transfer`: the bytes that the operation has brought into the buffer. `none` is the assertion.
abbrev pub act :
    (zero_copy : Bool) → Answers → Which → (transfer : List ℕ) → Action → Relay → Option Relay
act zero_copy a w [] zero_read s = some (read_first zero_copy a w a.first s)
act zero_copy a w (b ∷ bs) zero_read s = none
act zero_copy a w transfer cool_read s =
    some (copy_out zero_copy a.post_ok w transfer a.answers (receive transfer s))
act zero_copy a w transfer byte_write s = some (pass_in a.post_ok w a.input s)

unfoldable pub callback :
    (zero_copy : Bool) → Answers → Which → (transfer : List ℕ) → Relay → Option Relay
unfolding copy_out do_post_send do_post_quit
callback zero_copy a w transfer s = act zero_copy a w transfer (data_of w s).action s

-- What GetQueuedCompletionStatus reports.
pub data Completion : Type 0 where
  timeout : Completion
  port_failed : Completion
  quit : Completion
  completed : Answers → Which → (transfer : List ℕ) → Completion

-- An operation is in flight no more when it is reported.
abbrev pub unposted : Which → Relay → Relay
unposted w s = with_data w (record (data_of w s) { posted = false }) s

-- The `for` of `WorkerThread`, with what is reported to it.
unfoldable pub worker_thread : (zero_copy : Bool) → List Completion → Relay → Option Relay
unfolding callback do_post_quit
worker_thread zero_copy [] s = some s
worker_thread zero_copy (timeout ∷ cs) s = worker_thread zero_copy cs s
worker_thread zero_copy (port_failed ∷ cs) s = some (do_post_quit s)
worker_thread zero_copy (quit ∷ cs) s = some s
worker_thread zero_copy (completed a w transfer ∷ cs) s =
    callback zero_copy a w transfer (unposted w s) >>= λ t. worker_thread zero_copy cs t
