-- ===== src/Url/Tests.antt =====
-- The theorem on addresses of the web at http://h:8/p.
use libtx.Common.{ℕ, ◌*◌, ◌≡◌, refl, Option, none, some, List, [], ◌∷◌, ◌++◌, arith}
use libtx.Url.{connects, not_http, http, get_url_socket}
use libtx.Url.Parts.{get_url_socket-parts}

-- Stand-ins for `atoi`, `htons`, `inet_aton` and `gethostbyname`.
abbrev number : List ℕ → ℕ
number t = 8

abbrev swapped : ℕ → ℕ
swapped n = 256 * n

abbrev known : List ℕ → Option ℕ
known t = some 5

abbrev unknown : List ℕ → Option ℕ
unknown t = none

get_url_socket-parts_example :
    get_url_socket number swapped known unknown
      (http ++ (b'h' ∷ b':' ∷ b'8' ∷ []) ++ b'/' ∷ b'p' ∷ [])
    ≡ connects (record {
      g_host = b'h' ∷ b':' ∷ b'8' ∷ [];
      g_path = b'/' ∷ b'p' ∷ [];
      sin_addr = 5;
      sin_port = 2048;
    })
get_url_socket-parts_example =
    get_url_socket-parts number swapped known unknown (b'h' ∷ []) (b'8' ∷ []) (b'p' ∷ []) 5 refl
      refl refl (ground arith)

-- Without "http://", or without a path.
other_scheme : get_url_socket number swapped known unknown (b'f' ∷ b't' ∷ b'p' ∷ []) ≡ not_http
unfolding get_url_socket
other_scheme = refl

no_path :
    get_url_socket number swapped known unknown (http ++ b'h' ∷ [])
    ≡ connects (record { g_host = b'h' ∷ []; g_path = b'/' ∷ []; sin_addr = 5; sin_port = 20480 })
unfolding get_url_socket
no_path = refl
