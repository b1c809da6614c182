-- ===== src/Netcat/Remote.antt =====
-- The command lines of netcat (ncatutil.cpp) that connect to a host.
use libtx.Common.{
  ℕ, ◌≡◌, refl, Bool, true, false, ◌||◌, Option, none, some, List, [], ◌∷◌, if◌then◌else◌, arith,
  if_cases, subst,
}
use libtx.Inet.{◌>>=◌}
use libtx.Netcat.{
  Netcat, Args, no_args, context, flag, same_text, plain_arg, parse, only_digits, split_parts,
  one_of, or_exits, ended, good_host, listening, connecting, finish_args, finish_if,
  get_cat_context,
}

-- The text is `-l`, `-o`, `-s` or `-p`.
abbrev pub is_flag : List ℕ → Bool
is_flag t =
    same_text (flag b'l') t
    || same_text (flag b'o') t
    || same_text (flag b's') t
    || same_text (flag b'p') t

abbrev pub part : Option (List ℕ) → List (List ℕ)
part none = []
part (some t) = t ∷ []

abbrev pub is_flag_part : Option (List ℕ) → Bool
is_flag_part none = false
is_flag_part (some t) = is_flag t

-- A text that is not a flag is a part of the address.
plain_arg-host :
    (t : List ℕ) (a : Args)
    → is_flag t ≡ false
    → a.part_0 ≡ none
    → plain_arg t a ≡ some (record a { part_0 = some t })
unfolding plain_arg
plain_arg-host t a e n =
    let l : same_text (flag b'l') t ≡ false = ground arith in
    let o : same_text (flag b'o') t ≡ false = ground arith in
    let s : same_text (flag b's') t ≡ false = ground arith in
    let p : same_text (flag b'p') t ≡ false = ground arith in rw (l, o, s, p, n) refl

plain_arg-port :
    (t h : List ℕ) (a : Args)
    → is_flag t ≡ false
    → plain_arg t (record a { part_0 = some h; part_1 = none })
      ≡ some (record a { part_0 = some h; part_1 = some t })
unfolding plain_arg
plain_arg-port t h a e =
    let l : same_text (flag b'l') t ≡ false = ground arith in
    let o : same_text (flag b'o') t ≡ false = ground arith in
    let s : same_text (flag b's') t ≡ false = ground arith in
    let p : same_text (flag b'p') t ≡ false = ground arith in rw (l, o, s, p) refl

-- After the three flags and their arguments.
abbrev flagged : (source source_port option : List ℕ) → Args
flagged source source_port option = record no_args {
  s_domain = some source;
  opt_port = some source_port;
  opt_option = some option;
}

module _ (inet_addr : List ℕ → ℕ) where
  -- With `-s`, `-p` and `-o` and their arguments, a host that is not a number and of which `inet_addr`
  -- knows a good address, and a port or none, neither of them spelt like a flag, `get_cat_context`
  -- returns a context that connects to this host and port; without a port `dai_port` stays NULL.
  pub get_cat_context-host :
      (source source_port option host : List ℕ) (port : Option (List ℕ))
      → is_flag host ≡ false
      → is_flag_part port ≡ false
      → only_digits host ≡ false
      → good_host inet_addr (some host) ≡ true
      → get_cat_context inet_addr
          (flag b's' ∷ source ∷ flag b'p' ∷ source_port ∷ flag b'o' ∷ option ∷ host ∷ part port)
        ≡ context (record {
          l_mode = false;
          option = some option;
          sai_port = some source_port;
          sai_addr = some source;
          dai_port = port;
          dai_addr = some host;
        })
  unfolding get_cat_context parse plain_arg finish_args split_parts connecting
  get_cat_context-host source source_port option host none h p d g =
      rw (plain_arg-host host (flagged source source_port option) h refl, d, g) refl
  get_cat_context-host source source_port option host (some port) h p d g =
      rw
        (
          plain_arg-host host (flagged source source_port option) h refl,
          plain_arg-port port host (flagged source source_port option) p,
          d,
          g,
        )
        refl

  -- The host of a context that connects has been looked at.
  abbrev Checked : Option Netcat → Type 0
  Checked none = Unit {0}
  Checked (some n) = n.l_mode ≡ false → good_host inet_addr n.dai_addr ≡ true

  connecting-Checked :
      (a : Args) (domain port : Option (List ℕ)) → Checked (connecting inet_addr a domain port)
  unfolding connecting
  connecting-Checked a domain port =
      if_cases Checked (good_host inet_addr domain) (λ g l. g) (λ g. tt)

  listening-Checked :
      (a : Args) (domain port : Option (List ℕ)) → Checked (listening inet_addr a domain port)
  unfolding listening
  listening-Checked a domain port = both (one_of a.s_domain domain) (one_of a.opt_port port)
    where
      both :
          (o p : Option (Option (List ℕ)))
          → Checked (
              o >>= λ sai_addr. p >>= λ sai_port. some (record {
                l_mode = true;
                option = a.opt_option;
                sai_port = sai_port;
                sai_addr = sai_addr;
                dai_port = port;
                dai_addr = domain;
              }))
      both none p = tt
      both (some o) none = tt
      both (some o) (some p) = λ l. cc

  parts-Checked :
      (a : Args) (d : Option (Option (List ℕ) × Option (List ℕ)))
      → Checked (
          d >>= λ e.
          if a.opt_listen then listening inet_addr a e.0 e.1 else connecting inet_addr a e.0 e.1)
  parts-Checked a none = tt
  parts-Checked a (some e) =
      if_cases Checked a.opt_listen (λ l. listening-Checked a e.0 e.1)
        (λ l. connecting-Checked a e.0 e.1)

  finish_args-Checked : (a : Args) → Checked (finish_args inet_addr a)
  unfolding finish_args
  finish_args-Checked a =
      if_cases Checked (ended a.wanted) (λ e. parts-Checked a (split_parts a.part_0 a.part_1))
        (λ e. tt)

  outcome-Checked :
      (o : Option Netcat) (n : Netcat) → or_exits o ≡ context n → Checked o → Checked (some n)
  outcome-Checked none n e c = cc
  outcome-Checked (some m) n e c =
      let same : m ≡ n = cc in subst (λ (k : Netcat). Checked (some k)) same c

  -- Whatever the command line is, a context that connects, and does not listen, has a host of which
  -- `inet_addr` knows a good address.
  pub get_cat_context-good :
      (argv : List (List ℕ)) (n : Netcat)
      → get_cat_context inet_addr argv ≡ context n
      → n.l_mode ≡ false
      → good_host inet_addr n.dai_addr ≡ true
  unfolding get_cat_context
  get_cat_context-good argv n e = finished (parse argv no_args) e
    where
      finished :
          (o : Option Args)
          → finish_if inet_addr o ≡ context n
          → n.l_mode ≡ false
          → good_host inet_addr n.dai_addr ≡ true
      finished none f = cc
      finished (some a) f = outcome-Checked (finish_args inet_addr a) n f (finish_args-Checked a)
