-- ===== src/Url.antt =====
-- `get_url_socket` of txget.cpp: where an address of the web is, and what is to be asked for there.
--
-- A text is the list of its bytes. `atoi`, `htons`, `inet_aton` and `gethostbyname` are parameters.
-- `overruns` is a `strcpy` of more than `_g_path` has room for. The socket that is connected at the end
-- is left out.
pub mod Parts
mod Tests
use libtx.Common.{
  ℕ, suc, Bool, true, false, not, ◌&&◌, ◌==◌, ltb, Option, none, some, List, [], ◌∷◌, length, take,
  if◌then◌else◌,
}
use libtx.Inet.{◌>>=◌}
use libtx.Providers.{or_else}
use libtx.Target.{up_to, from, after_first}

-- `_g_host`, `_g_path`, and where `connect` goes.
pub record Request : Type 0 where
  pub g_host : List ℕ
  pub g_path : List ℕ
  pub sin_addr : ℕ
  pub sin_port : ℕ

-- `exits` is FAILURE_SAFEEXIT, and `not_http` is -1.
pub data UrlOutcome : Type 0 where
  connects : Request → UrlOutcome
  not_http : UrlOutcome
  exits : UrlOutcome
  overruns : UrlOutcome

-- sizeof (domain), and the sizes of `_g_host` and `_g_path`.
abbrev pub text_size : ℕ
text_size = 256

abbrev pub http : List ℕ
http = b'h' ∷ b't' ∷ b't' ∷ b'p' ∷ b':' ∷ b'/' ∷ b'/' ∷ []

-- `&url[7]`, if `strncmp (url, "http://", 7)` is 0.
abbrev pub after_prefix : List ℕ → List ℕ → Option (List ℕ)
after_prefix [] url = some url
after_prefix (c ∷ cs) [] = none
after_prefix (c ∷ cs) (x ∷ xs) = let rest = after_prefix cs xs in if x == c then rest else none

abbrev pub is_found : List ℕ → Bool
is_found [] = false
is_found (x ∷ xs) = true

module _ (atoi : List ℕ → ℕ) (htons : ℕ → ℕ) (inet_aton gethostbyname : List ℕ → Option ℕ) where
  -- `port`, for the text behind the name.
  abbrev pub port_of : List ℕ → ℕ
  port_of [] = 80
  port_of (c ∷ cs) = atoi cs

  abbrev pub resolve : List ℕ → Option ℕ
  resolve domain = or_else (inet_aton domain) (gethostbyname domain)

  abbrev pub asked : (domain path : List ℕ) → Option ℕ → UrlOutcome
  asked domain path none = exits
  asked domain path (some a) = connects (record {
    g_host = domain;
    g_path = path;
    sin_addr = a;
    sin_port = htons (port_of (from b':' domain));
  })

  -- From `strcpy (_g_host, domain)` on.
  abbrev pub connect_to : (domain path : List ℕ) → UrlOutcome
  connect_to domain path = asked domain path (resolve (up_to b':' domain))

  abbrev pub split_url : List ℕ → UrlOutcome
  split_url line =
      let p = from b'/' line in
      if is_found p && ltb (length (up_to b'/' line)) text_size
      then (if ltb (length p) text_size then connect_to (up_to b'/' line) p else overruns)
      else connect_to (take 255 line) (b'/' ∷ [])

  unfoldable pub get_url_socket : List ℕ → UrlOutcome
  get_url_socket url = elim (after_prefix http url) [ none ↦ not_http | some line ↦ split_url line ]
