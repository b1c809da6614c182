-- ===== src/Port/Tests.antt =====
-- The theorems on the completion port at a concrete state: descriptor 1, which gets the object 50.
use libtx.Common.{
  ℕ, ◌≡◌, ◌≢◌, ◌↔◌, ◌⊎◌, ◌≤◌, refl, true, false, not, ◌&&◌, arith, none, some, [], ◌∷◌,
}
use libtx.Common.Int.{pos, inc, dec}
use libtx.Loop.{flags_of, tx_loop_new, tx_poll_active}
use libtx.Aiocb.{Net, blank, flags_at}
use libtx.Aiocb.Weights.{is_in}
use libtx.Port.{
  Port, set_object, tx_recv, start_send, start_recv, reported, handle_overlapped, finish_object,
  object_of, tx_completion_port_polling, handle_each, release, delete_object,
}
use libtx.Port.Calls.{
  tx_completion_port_pollout, attach_object, pending, tx_completion_port_attach,
  tx_completion_port_connect, tx_completion_port_pollin, tx_completion_port_detach,
  tx_completion_port_sendout, tx_completion_port_accept, send_staged, detach_object,
}
use libtx.Port.Invariant.{Inv}
use libtx.Port.Polling.{Flying, ending-woken}
use libtx.Port.Steps.{
  Steps, no_step, then_step, Fresh, Steps-Inv, attach, detach, pollin, sendout, poll,
}
use libtx.Port.Lifetime.{Held, Steps-alive, Steps-return}
use libtx.Port.Cache.{sent, then_sent, Steps-cache}

abbrev start : Net Port
start = record {
  poll = record {
    port_task = 101;
    port_list = [];
    objects = λ p. record { tx_refcnt = pos 0; tx_newfd = none; tx_filp = none; tx_cache = [] };
    alive = λ p. false;
    privp = λ f. none;
    in_flight = λ p. record { sends = 0; recvs = 0; accepting = false };
  };
  filps = λ p. record (blank none) { tx_filterin = some 7 };
  loop = tx_loop_new λ p. record {
    tx_flags = record { idle = true; busy = false; pending = false; user_mark = false };
    tx_reason = 0;
    tx_data = 0;
    tx_call = p;
  };
}

start-Fresh : Fresh start
start-Fresh = record {
  no_list = refl;
  no_object = λ p. refl;
  no_owner = λ f. refl;
  no_flight = λ p. (refl, refl);
  unattached = λ f. refl;
}

abbrev opened : Net Port
opened = attach_object 1 50 start

-- A receive is in flight.
abbrev reading : Net Port
reading = start_recv 1 50 opened

abbrev detached : Net Port
detached = detach_object 1 50 reading

abbrev ended : Net Port
ended = record (finish_object tx_recv 50 (reported tx_recv 50 detached)) {
  loop = tx_poll_active 101 (finish_object tx_recv 50 (reported tx_recv 50 detached)).loop;
}

-- A send is in flight too.
abbrev sending : Net Port
sending = start_send 1 50 (record reading {
  poll = set_object 50 (record (reading.poll.objects 50) { tx_cache = 4 ∷ 5 ∷ [] }) reading.poll;
})

to_reading : Steps start reading
unfolding tx_completion_port_attach tx_completion_port_pollin attach_object start_recv object_of inc
    tx_loop_new
to_reading =
    then_step (then_step no_step (attach 1 50 opened refl refl refl refl))
      (pollin true 0 1 reading refl refl)

to_sending : Steps start sending
unfolding tx_completion_port_sendout attach_object start_recv start_send send_staged object_of inc
    tx_loop_new
to_sending =
    then_step to_reading
      (sendout false 0 true 1 (4 ∷ 5 ∷ []) (pos 2) sending refl (ground arith) refl)

one_recv : Flying ((tx_recv, 50) ∷ []) reading.poll.in_flight
unfolding Flying attach_object start_recv
one_recv = (ground arith, tt)

to_ended : Steps start ended
unfolding tx_completion_port_detach tx_completion_port_polling handle_each handle_overlapped
    attach_object start_recv detach_object finish_object release delete_object object_of inc dec
    tx_loop_new Flying
to_ended =
    then_step (then_step to_reading (detach 1 detached refl))
      (poll ((tx_recv, 50) ∷ []) ended (ground arith, tt) refl)

Steps-Inv_example : Inv sending.poll sending.filps
Steps-Inv_example = Steps-Inv start sending to_sending start-Fresh

Steps-alive_example :
    ((ended.poll.alive 50 ≡ true) ↔ Held 50 ended)
    × (((ended.poll.alive 50 ≡ true)
          × (is_in 50 ended.poll.port_list ≡ true)
          × ((n : ℕ) × ((ended.poll.objects 50).tx_refcnt ≡ pos n) × (1 ≤ n) × (n ≤ 3)))
        ⊎ ((ended.poll.alive 50 ≡ false) × (is_in 50 ended.poll.port_list ≡ false)))
Steps-alive_example = Steps-alive start ended 50 to_ended start-Fresh

Steps-return_example :
    (tx_completion_port_pollin true 0 1 reading ≢ none)
    × (tx_completion_port_pollout 1 reading ≢ none)
    × (tx_completion_port_sendout false 0 true 1 (4 ∷ []) reading ≢ none)
    × (tx_completion_port_connect pending 1 reading ≢ none)
    × (tx_completion_port_accept 1 reading ≢ none)
    × (tx_completion_port_detach 1 reading ≢ none)
    × (tx_completion_port_attach true (some 51) 2 reading ≢ none)
    × (tx_completion_port_polling ((tx_recv, 50) ∷ []) reading ≢ none)
unfolding attach_object start_recv
Steps-return_example =
    Steps-return start reading 1 2 51 0 0 true false (4 ∷ []) pending ((tx_recv, 50) ∷ [])
      to_reading start-Fresh refl (ground arith) one_recv

-- The bytes stay when the descriptor is detached while they are being sent.
Steps-cache_example :
    (pos 2 ≡ pos 2) × (((detach_object 1 50 sending).poll.objects 50).tx_cache ≡ 4 ∷ 5 ∷ [])
unfolding tx_completion_port_detach tx_completion_port_sendout attach_object start_recv start_send
    send_staged detach_object object_of inc tx_loop_new
Steps-cache_example =
    Steps-cache start reading sending (detach_object 1 50 sending) 1 50 (4 ∷ 5 ∷ []) (pos 2)
      start-Fresh to_reading refl refl refl (ground arith) (ground arith) refl
      (then_sent (detach_object 1 50 sending) sent (ground arith) refl
        (detach 1 (detach_object 1 50 sending) refl))

ending-woken_example :
    (u : Net Port) × (handle_overlapped tx_recv 50 (reported tx_recv 50 reading) ≡ some u)
    × ((flags_of u.loop 7).busy ≡ true)
    × ((u.filps 1).tx_filterin ≡ none)
    × (((flags_at u 1).readable && not (flags_at u 1).pollin) ≡ true)
    × (u.poll.alive 50 ≡ true)
    × (u.poll.privp 1 ≡ some 50)
unfolding attach_object start_recv tx_loop_new
ending-woken_example =
    ending-woken tx_recv 1 50 7 reading (Steps-Inv start reading to_reading start-Fresh) refl
      (ground arith) refl refl
