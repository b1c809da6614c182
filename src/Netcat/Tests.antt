-- ===== src/Netcat/Tests.antt =====
-- The theorems on the command line at `-s s -p 1 -o o h 80`, and at `-s s -p 1 -o o h`.
use libtx.Common.{true, false, ℕ, ◌≡◌, arith, refl, Option, none, some, List, [], ◌∷◌}
use libtx.Netcat.{Netcat, context, exits, flag, parse, plain_arg, finish_args, get_cat_context}
use libtx.Netcat.Options.{
  Plain, is_plain, print_options, lookup, get_cat_options, get_cat_options-print,
}
use libtx.Netcat.Socket.{gives, CatSocket, SocketAnswers, get_cat_socket, get_cat_socket-opened}
use libtx.Netcat.Remote.{get_cat_context-host}

-- A stand-in for `inet_addr`.
abbrev address_of : List ℕ → ℕ
address_of t = 7

abbrev remote : Option (List ℕ) → Netcat
remote port = record {
  l_mode = false;
  option = some (b'o' ∷ []);
  sai_port = some (b'1' ∷ []);
  sai_addr = some (b's' ∷ []);
  dai_port = port;
  dai_addr = some (b'h' ∷ []);
}

abbrev command : List (List ℕ) → List (List ℕ)
command rest =
    flag b's' ∷ (b's' ∷ []) ∷ flag b'p' ∷ (b'1' ∷ []) ∷ flag b'o' ∷ (b'o' ∷ []) ∷ (b'h' ∷ []) ∷ rest

get_cat_context-host_example :
    get_cat_context address_of (command ((b'8' ∷ b'0' ∷ []) ∷ []))
    ≡ context (remote (some (b'8' ∷ b'0' ∷ [])))
get_cat_context-host_example =
    get_cat_context-host address_of (b's' ∷ []) (b'1' ∷ []) (b'o' ∷ []) (b'h' ∷ [])
      (some (b'8' ∷ b'0' ∷ [])) refl refl refl refl

no_port : get_cat_context address_of (command []) ≡ context (remote none)
no_port =
    get_cat_context-host address_of (b's' ∷ []) (b'1' ∷ []) (b'o' ∷ []) (b'h' ∷ []) none refl refl
      refl refl

-- A flag at the end, without its argument, ends the program.
flag_at_end : get_cat_context address_of (flag b'o' ∷ []) ≡ exits
unfolding get_cat_context parse plain_arg finish_args
flag_at_end = refl

-- `-o blkio,write=off`.
abbrev two_options : List (List ℕ × Option (List ℕ))
two_options =
    (b'b' ∷ b'l' ∷ b'k' ∷ b'i' ∷ b'o' ∷ [], none)
    ∷ (b'w' ∷ b'r' ∷ b'i' ∷ b't' ∷ b'e' ∷ [], some (b'o' ∷ b'f' ∷ b'f' ∷ []))
    ∷ []

abbrev with_options : Netcat
with_options = record {
  l_mode = false;
  option = some (print_options two_options);
  sai_port = none;
  sai_addr = none;
  dai_port = none;
  dai_addr = none;
}

get_cat_options-print_example :
    get_cat_options with_options (b'w' ∷ b'r' ∷ b'i' ∷ b't' ∷ b'e' ∷ [])
    ≡ some (b'o' ∷ b'f' ∷ b'f' ∷ [])
unfolding Plain is_plain print_options lookup
get_cat_options-print_example =
    get_cat_options-print with_options (b'w' ∷ b'r' ∷ b'i' ∷ b't' ∷ b'e' ∷ [])
      (b'b' ∷ b'l' ∷ b'k' ∷ b'i' ∷ b'o' ∷ [], none)
      ((b'w' ∷ b'r' ∷ b'i' ∷ b't' ∷ b'e' ∷ [], some (b'o' ∷ b'f' ∷ b'f' ∷ [])) ∷ [])
      (refl, tt, (refl, refl, tt)) (ground arith) refl

-- The socket 3, with a `bind` that is refused: it stays open.
abbrev no_bind : SocketAnswers
no_bind = record {
  serv = some 3;
  bind_ok = false;
  listen_ok = true;
  accepted = some 4;
  connect_ok = true;
}

abbrev no_socket : Option ℕ
no_socket = none

abbrev of_no_bind : CatSocket
of_no_bind = record { opened = 3 ∷ []; bound = none; target = none }

get_cat_socket-opened_example : (of_no_bind.opened ≡ 3 ∷ []) × (no_socket ≡ none)
unfolding get_cat_socket
get_cat_socket-opened_example =
    get_cat_socket-opened (λ t. 1) (λ n. n) (λ n. n) (λ t. some 7) no_bind
      (λ fd m e h. ground (arith, e, h)) (remote (some (b'8' ∷ []))) none of_no_bind refl

-- With a `connect` that is refused it is closed.
abbrev no_peer : SocketAnswers
no_peer = record no_bind { bind_ok = true; connect_ok = false }

closed_without_peer :
    get_cat_socket (λ t. 1) (λ n. n) (λ n. n) (λ t. some 7) no_peer (remote (some (b'8' ∷ [])))
    ≡ gives none (record { opened = []; bound = some (none, 1); target = some (7, 1) })
unfolding get_cat_socket
closed_without_peer = refl
