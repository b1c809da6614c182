-- ===== src/Url/Parts.antt =====
-- The parts that `get_url_socket` of txget.cpp takes from an address.
use libtx.Common.{
  ℕ, suc, ◌<◌, ◌≡◌, refl, ap, Bool, true, false, not, ◌&&◌, ◌==◌, ltb, Option, some, List, [], ◌∷◌,
  ◌++◌, length, if◌then◌else◌, arith, ==_refl,
}
use libtx.Target.{up_to, from}
use libtx.Url.{connects, overruns, http, connect_to, get_url_socket}

abbrev pub lacks : ℕ → List ℕ → Bool
lacks c [] = true
lacks c (x ∷ xs) = not (x == c) && lacks c xs

up_to-lacks : (c : ℕ) (xs rest : List ℕ) → lacks c xs ≡ true → up_to c (xs ++ c ∷ rest) ≡ xs
up_to-lacks c [] rest h = rw (==_refl c) refl
up_to-lacks c (x ∷ xs) rest h =
    let n : (x == c) ≡ false = ground arith in
    rw (n) (ap (λ r. x ∷ r) (up_to-lacks c xs rest (ground arith)))

from-lacks : (c : ℕ) (xs rest : List ℕ) → lacks c xs ≡ true → from c (xs ++ c ∷ rest) ≡ c ∷ rest
from-lacks c [] rest h = rw (==_refl c) refl
from-lacks c (x ∷ xs) rest h =
    let n : (x == c) ≡ false = ground arith in rw (n) (from-lacks c xs rest (ground arith))

module _ (atoi : List ℕ → ℕ) (htons : ℕ → ℕ) (inet_aton gethostbyname : List ℕ → Option ℕ) where
  connect_to-name :
      (name port path : List ℕ) (a : ℕ)
      → lacks b':' name ≡ true
      → inet_aton name ≡ some a
      → connect_to atoi htons inet_aton gethostbyname (name ++ b':' ∷ port) path
        ≡ connects (record {
          g_host = name ++ b':' ∷ port;
          g_path = path;
          sin_addr = a;
          sin_port = htons (atoi port);
        })
  connect_to-name name port path a c e =
      rw (up_to-lacks b':' name port c, e, from-lacks b':' name port c) refl

  -- From an address with "http://", a name, ':', a port and a path, where the name holds no ':', there
  -- is no '/' before the path, and inet_aton finds the address `a` of the name, `get_url_socket`
  -- connects to `a` at the port and asks for the path, if the name with the port has less than 256
  -- bytes and so has the path. With as long a path as that or longer it writes behind `_g_path`.
  pub get_url_socket-parts :
      (name port path : List ℕ) (a : ℕ)
      → lacks b'/' (name ++ b':' ∷ port) ≡ true
      → lacks b':' name ≡ true
      → inet_aton name ≡ some a
      → length (name ++ b':' ∷ port) < 256
      → get_url_socket atoi htons inet_aton gethostbyname
          (http ++ (name ++ b':' ∷ port) ++ b'/' ∷ path)
        ≡ (if ltb (suc (length path)) 256
            then connects (record {
              g_host = name ++ b':' ∷ port;
              g_path = b'/' ∷ path;
              sin_addr = a;
              sin_port = htons (atoi port);
            })
            else overruns)
  unfolding get_url_socket
  get_url_socket-parts name port path a s c e n =
      let l : ltb (length (name ++ b':' ∷ port)) 256 ≡ true = ground arith in
      rw
        (
          up_to-lacks b'/' (name ++ b':' ∷ port) path s,
          from-lacks b'/' (name ++ b':' ∷ port) path s,
          l,
          connect_to-name name port (b'/' ∷ path) a c e,
        )
        refl
