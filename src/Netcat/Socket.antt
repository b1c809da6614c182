-- ===== src/Netcat/Socket.antt =====
-- `get_cat_socket` of ncatutil.cpp: the socket of netcat, which waits for a connection or makes one.
--
-- `opened` are the descriptors that the function has opened and not closed, `bound` is what `bind` has
-- been given, and `target` what `connect` has. The address that is bound is `none` where the code never
-- sets it. `none` is -1.
use libtx.Common.{
  ◌&&◌, not, Bool-cases, inl, inr, ℕ, ◌≡◌, ◌≢◌, refl, ap, ◌∙◌, Bool, true, false, ◌||◌, ◌==◌,
  Option, none, some, List, [], ◌∷◌, if◌then◌else◌, if_cases, arith, ==_refl, subst,
}
use libtx.Netcat.{Netcat}

pub record CatSocket : Type 0 where
  pub opened : List ℕ
  pub bound : Option (Option ℕ × ℕ)
  pub target : Option (ℕ × ℕ)

-- `ended` is `error_check`, and `crashes` is `atoi (NULL)`.
pub data SocketOutcome : Type 0 where
  gives : Option ℕ → CatSocket → SocketOutcome
  ended : SocketOutcome
  crashes : SocketOutcome

-- What `socket`, `bind`, `listen`, `accept` and `connect` answer.
pub record SocketAnswers : Type 0 where
  pub serv : Option ℕ
  pub bind_ok : Bool
  pub listen_ok : Bool
  pub accepted : Option ℕ
  pub connect_ok : Bool

abbrev pub opened_by : Option ℕ → List ℕ
opened_by none = []
opened_by (some fd) = fd ∷ []

abbrev pub and_opened : Option ℕ → List ℕ → List ℕ
and_opened none fds = fds
and_opened (some fd) fds = fd ∷ fds

abbrev remove : ℕ → List ℕ → List ℕ
remove fd [] = []
remove fd (x ∷ xs) = let rest = remove fd xs in if x == fd then rest else x ∷ rest

abbrev pub closesocket : Option ℕ → List ℕ → List ℕ
closesocket none fds = fds
closesocket (some fd) fds = remove fd fds

abbrev pub is_given : Option (List ℕ) → Bool
is_given none = false
is_given (some t) = true

abbrev pub with_serv : SocketAnswers → CatSocket
with_serv a = record { opened = opened_by a.serv; bound = none; target = none }

abbrev close_serv : SocketAnswers → CatSocket → CatSocket
close_serv a s = record s { opened = closesocket a.serv s.opened }

-- `my_addr.sin_addr`: INADDR_ANY without a source address, and else not set.
abbrev pub my_address : Option (List ℕ) → Option ℕ
my_address none = some 0
my_address (some t) = none

abbrev pub accept_from : SocketAnswers → CatSocket → Option ℕ → SocketOutcome
accept_from a s none = ended
accept_from a s (some fd) = gives (some fd) (close_serv a (record s { opened = fd ∷ s.opened }))

module _ (atoi : List ℕ → ℕ) (htons short : ℕ → ℕ) (inet_pton : Option (List ℕ) → Option ℕ) where
  abbrev pub my_port : Option (List ℕ) → ℕ
  my_port none = htons 0
  my_port (some t) = htons (atoi t)

  abbrev pub connect_at : SocketAnswers → CatSocket → ℕ → Option ℕ → SocketOutcome
  connect_at a s port none = gives none (close_serv a s)
  connect_at a s port (some address) =
      if a.connect_ok
      then gives a.serv (record s { target = some (address, port) })
      else gives none (close_serv a (record s { target = some (address, port) }))

  abbrev pub connect_mode :
      SocketAnswers → (dai_addr dai_port : Option (List ℕ)) → CatSocket → SocketOutcome
  connect_mode a dai_addr none s = crashes
  connect_mode a dai_addr (some t) s = connect_at a s (htons (short (atoi t))) (inet_pton dai_addr)

  -- What follows `bind`.
  abbrev pub after_bind : SocketAnswers → Netcat → CatSocket → SocketOutcome
  after_bind a upp s =
      if upp.l_mode
      then (if a.listen_ok then accept_from a s a.accepted else ended)
      else connect_mode a upp.dai_addr upp.dai_port s

  unfoldable pub get_cat_socket : SocketAnswers → Netcat → SocketOutcome
  get_cat_socket a upp =
      let s = with_serv a in
      if is_given upp.sai_addr || is_given upp.sai_port
      then (if a.bind_ok
          then after_bind a upp
              (record s { bound = some (my_address upp.sai_addr, my_port upp.sai_port) })
          else gives none s)
      else after_bind a upp s

-- `bind` has been called, and has been refused.
abbrev pub bind_refused : SocketAnswers → Netcat → Bool
bind_refused a upp = (is_given upp.sai_addr || is_given upp.sai_port) && not a.bind_ok

-- What is open is what has been returned.
abbrev Kept : SocketOutcome → Type 0
Kept (gives r s) = s.opened ≡ opened_by r
Kept ended = Unit
Kept crashes = Unit

closed-opened : (serv : Option ℕ) → closesocket serv (opened_by serv) ≡ []
closed-opened none = refl
closed-opened (some fd) = rw (==_refl fd) refl

closed-accepted :
    (serv : Option ℕ) (fd : ℕ)
    → ((m : ℕ) → serv ≡ some m → fd ≢ m)
    → closesocket serv (fd ∷ opened_by serv) ≡ fd ∷ []
closed-accepted none fd h = refl
closed-accepted (some m) fd h =
    let n : (fd == m) ≡ false = ground (arith, h m refl) in rw (n, ==_refl m) refl

module _ (atoi : List ℕ → ℕ) (htons short : ℕ → ℕ) (inet_pton : Option (List ℕ) → Option ℕ)
    (a : SocketAnswers) (fresh : (fd m : ℕ) → a.accepted ≡ some fd → a.serv ≡ some m → fd ≢ m) where
  accept_from-Kept :
      (o : Option ℕ) (s : CatSocket)
      → a.accepted ≡ o
      → s.opened ≡ opened_by a.serv
      → Kept (accept_from a s o)
  accept_from-Kept none s e h = tt
  accept_from-Kept (some fd) s e h =
      ap (λ fds. closesocket a.serv (fd ∷ fds)) h
      ∙ closed-accepted a.serv fd (λ m k. fresh fd m e k)

  connect_at-Kept :
      (o : Option ℕ) (port : ℕ) (s : CatSocket)
      → s.opened ≡ opened_by a.serv
      → Kept (connect_at atoi htons short inet_pton a s port o)
  connect_at-Kept none port s h = ap (closesocket a.serv) h ∙ closed-opened a.serv
  connect_at-Kept (some address) port s h =
      if_cases Kept a.connect_ok (λ _. h) (λ _. ap (closesocket a.serv) h ∙ closed-opened a.serv)

  connect_mode-Kept :
      (addr port : Option (List ℕ)) (s : CatSocket)
      → s.opened ≡ opened_by a.serv
      → Kept (connect_mode atoi htons short inet_pton a addr port s)
  connect_mode-Kept addr none s h = tt
  connect_mode-Kept addr (some t) s h =
      connect_at-Kept (inet_pton addr) (htons (short (atoi t))) s h

  after_bind-Kept :
      (upp : Netcat) (s : CatSocket)
      → s.opened ≡ opened_by a.serv
      → Kept (after_bind atoi htons short inet_pton a upp s)
  after_bind-Kept upp s h =
      if_cases Kept upp.l_mode
        (λ _. if_cases Kept a.listen_ok (λ _. accept_from-Kept a.accepted s refl h) (λ _. tt))
        (λ _. connect_mode-Kept upp.dai_addr upp.dai_port s h)

  -- What is open is what has been returned, and the socket if `bind` has been refused.
  abbrev Ends : (is_refused : Bool) → SocketOutcome → Type 0
  Ends b (gives r s) =
      (s.opened ≡ opened_by (if b then a.serv else r)) × (r ≡ (if b then none else r))
  Ends b ended = Unit
  Ends b crashes = Unit

  Kept-Ends : (o : SocketOutcome) → Kept o → Ends false o
  Kept-Ends (gives r s) k = (k, refl)
  Kept-Ends ended k = tt
  Kept-Ends crashes k = tt

  get_cat_socket-Ends :
      (upp : Netcat) → Ends (bind_refused a upp) (get_cat_socket atoi htons short inet_pton a upp)
  unfolding get_cat_socket
  get_cat_socket-Ends upp =
      let bound = record (with_serv a) {
        bound = some (my_address upp.sai_addr, my_port atoi htons short inet_pton upp.sai_port);
      } in
      elim (Bool-cases (is_given upp.sai_addr || is_given upp.sai_port)) [
        | inl g ↦ elim (Bool-cases a.bind_ok) [
          | inl b ↦
              rw (g, b)
                (Kept-Ends (after_bind atoi htons short inet_pton a upp bound)
                  (after_bind-Kept upp bound refl))
          | inr b ↦ rw (g, b) (refl, refl)
        ]
        | inr g ↦ rw (g) (
            Kept-Ends (after_bind atoi htons short inet_pton a upp (with_serv a))
              (after_bind-Kept upp (with_serv a) refl))
      ]

  -- If `accept` gives a descriptor that is not open, then of the descriptors that `get_cat_socket` opens
  -- just the one that it returns is open when it returns, and none if it returns -1; but if it has called
  -- `bind` and that has been refused, it returns -1, and its socket is open.
  pub get_cat_socket-opened :
      (upp : Netcat) (r : Option ℕ) (s : CatSocket)
      → get_cat_socket atoi htons short inet_pton a upp ≡ gives r s
      → (s.opened ≡ opened_by (if bind_refused a upp then a.serv else r))
        × (r ≡ (if bind_refused a upp then none else r))
  get_cat_socket-opened upp r s e = subst (Ends (bind_refused a upp)) e (get_cat_socket-Ends upp)
