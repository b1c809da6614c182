-- ===== src/Worker/Tests.antt =====
-- The theorem on netcat-win32.cpp at two bytes that arrive, and then a recv that would block.
use libtx.Common.{◌≡◌, refl, true, false, none, some, [], ◌∷◌, inl}
use libtx.Pipling.{refused}
use libtx.Worker.{
  unposted, do_post_quit, wrote, cool_read, byte_write, receiving, Relay, Answers, copy_out,
  do_post_recv, callback, worker_thread, timeout, completed, quit,
}
use libtx.Worker.Relayed.{Inv, Moves, callback-Inv}

abbrev start : Relay
start = record {
  recv_data = record { action = cool_read; aiobuf = []; posted = true };
  send_data = record { action = byte_write; aiobuf = []; posted = true };
  quits = 0;
  came = [];
  out = [];
}

abbrev blocks : Answers
blocks = record {
  post_ok = true;
  first = refused true;
  input = none;
  answers = (wrote 2, refused true) ∷ [];
}

abbrev copied_two : Relay
copied_two = record start { came = 7 ∷ 8 ∷ []; out = 7 ∷ 8 ∷ [] }

callback-Inv_example : Inv copied_two × Moves receiving true copied_two
unfolding callback copy_out do_post_recv
callback-Inv_example =
    callback-Inv false blocks receiving (7 ∷ 8 ∷ []) start copied_two
      (record { reads = refl; writes = refl; relayed = inl refl }) refl refl

-- The thread goes on after a time-out, and ends with a packet of `do_post_quit`.
two_rounds :
    worker_thread false
      (timeout ∷ completed blocks receiving (7 ∷ 8 ∷ []) ∷ quit ∷ timeout ∷ [])
      start
    ≡ some copied_two
unfolding worker_thread callback copy_out do_post_recv
two_rounds = refl

-- After a write of one byte of two the packets are posted, and the other byte is not written.
one_of_two :
    callback false
      (record blocks { answers = (wrote 1, refused true) ∷ [] })
      receiving
      (7 ∷ 8 ∷ [])
      (unposted receiving start)
    ≡ some (record (unposted receiving start) { quits = 2; came = 7 ∷ 8 ∷ []; out = 7 ∷ [] })
unfolding callback copy_out do_post_quit
one_of_two = refl
