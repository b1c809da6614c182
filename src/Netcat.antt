-- ===== src/Netcat.antt =====
-- `get_cat_context` of ncatutil.cpp: the command line of netcat.
--
-- A text is the list of its bytes, and `none` is NULL. `error_check` ends the program, which is the
-- outcome `exits`; `null` is `return 0`. `inet_addr` is a parameter.
pub mod Options
pub mod Remote
pub mod Socket
mod Tests
use libtx.Common.{
  ℕ, ◌-◌, ◌^◌, Bool, true, false, not, ◌&&◌, ◌||◌, ◌==◌, Option, none, some, List, [], ◌∷◌,
  if◌then◌else◌,
}
use libtx.Inet.{is_digit, ◌>>=◌}

-- `netcat_t`.
pub record Netcat : Type 0 where
  pub l_mode : Bool
  pub option : Option (List ℕ)
  pub sai_port : Option (List ℕ)
  pub sai_addr : Option (List ℕ)
  pub dai_port : Option (List ℕ)
  pub dai_addr : Option (List ℕ)

-- Whether `++i` is to give the argument of `-o`, `-s` or `-p`.
pub data Wanted : Type 0 where
  no_arg : Wanted
  option_arg : Wanted
  source_arg : Wanted
  port_arg : Wanted

-- The variables of the loop; `opt_pidx` is how many of the parts are there.
pub record Args : Type 0 where
  pub wanted : Wanted
  pub opt_listen : Bool
  pub opt_option : Option (List ℕ)
  pub s_domain : Option (List ℕ)
  pub opt_port : Option (List ℕ)
  pub part_0 : Option (List ℕ)
  pub part_1 : Option (List ℕ)

pub data Outcome : Type 0 where
  context : Netcat → Outcome
  null : Outcome
  exits : Outcome

abbrev pub no_args : Args
no_args = record {
  wanted = no_arg;
  opt_listen = false;
  opt_option = none;
  s_domain = none;
  opt_port = none;
  part_0 = none;
  part_1 = none;
}

-- `!strcmp (a, b)`.
abbrev pub same_text : List ℕ → List ℕ → Bool
same_text [] [] = true
same_text (x ∷ xs) (y ∷ ys) = x == y && same_text xs ys
same_text _ _ = false

abbrev pub flag : ℕ → List ℕ
flag c = b'-' ∷ c ∷ []

-- `parts[opt_pidx++] = argv[i]`, if `opt_pidx < 2`.
abbrev pub add_part : List ℕ → Args → Option Args
add_part arg a = elim a.part_0 [
  | none ↦ some (record a { part_0 = some arg })
  | some p ↦ elim a.part_1 [ none ↦ some (record a { part_1 = some arg }) | some q ↦ none ]
]

-- One round of the `for`, with the argument of a flag as a round of its own; `none` is `return 0`.
unfoldable pub plain_arg : List ℕ → Args → Option Args
plain_arg arg a =
    if same_text (flag b'l') arg
    then some (record a { opt_listen = true })
    else if same_text (flag b'o') arg
    then some (record a { wanted = option_arg })
    else if same_text (flag b's') arg
    then some (record a { wanted = source_arg })
    else if same_text (flag b'p') arg
    then some (record a { wanted = port_arg })
    else add_part arg a

abbrev pub one_arg : Wanted → List ℕ → Args → Option Args
one_arg no_arg arg a = plain_arg arg a
one_arg option_arg arg a = some (record a { wanted = no_arg; opt_option = some arg })
one_arg source_arg arg a = some (record a { wanted = no_arg; s_domain = some arg })
one_arg port_arg arg a = some (record a { wanted = no_arg; opt_port = some arg })

unfoldable pub parse : List (List ℕ) → Args → Option Args
parse [] a = some a
parse (arg ∷ argv) a = one_arg a.wanted arg a >>= λ b. parse argv b

-- Whether the loop over a text with `isdigit` comes to its end.
abbrev pub only_digits : List ℕ → Bool
only_digits [] = true
only_digits (b ∷ bs) = is_digit b && only_digits bs

-- `domain` and `port`, or `none` where `error_check` ends the program.
unfoldable pub split_parts :
    Option (List ℕ) → Option (List ℕ) → Option (Option (List ℕ) × Option (List ℕ))
split_parts none _ = some (none, none)
split_parts (some p) none = if only_digits p then some (none, some p) else some (some p, none)
split_parts (some p) (some q) = if only_digits p then none else some (some p, some q)

-- `s_domain` and `sai_port` of a netcat that listens: given by a flag or by a part, not by both.
abbrev pub one_of : Option (List ℕ) → Option (List ℕ) → Option (Option (List ℕ))
one_of none b = some b
one_of (some a) none = some (some a)
one_of (some a) (some b) = none

abbrev pub or_exits : Option Netcat → Outcome
or_exits none = exits
or_exits (some n) = context n

abbrev pub ended : Wanted → Bool
ended no_arg = true
ended _ = false

module _ (inet_addr : List ℕ → ℕ) where
  -- INADDR_ANY is 0 and INADDR_NONE 2^32 - 1.
  abbrev pub good_host : Option (List ℕ) → Bool
  good_host none = false
  good_host (some d) = not (inet_addr d == 0) && not (inet_addr d == 2 ^ 32 - 1)

  -- What follows the loop.
  unfoldable pub listening : Args → Option (List ℕ) → Option (List ℕ) → Option Netcat
  listening a domain port = one_of a.s_domain domain >>= λ sai_addr.
      one_of a.opt_port port >>= λ sai_port. some (record {
        l_mode = true;
        option = a.opt_option;
        sai_port = sai_port;
        sai_addr = sai_addr;
        dai_port = port;
        dai_addr = domain;
      })

  unfoldable pub connecting : Args → Option (List ℕ) → Option (List ℕ) → Option Netcat
  connecting a domain port =
      if good_host domain
      then some (record {
        l_mode = false;
        option = a.opt_option;
        sai_port = a.opt_port;
        sai_addr = a.s_domain;
        dai_port = port;
        dai_addr = domain;
      })
      else none

  unfoldable pub finish_args : Args → Option Netcat
  unfolding listening connecting split_parts
  finish_args a =
      if ended a.wanted
      then (split_parts a.part_0 a.part_1 >>= λ d.
          if a.opt_listen then listening a d.0 d.1 else connecting a d.0 d.1)
      else none

  abbrev pub finish_if : Option Args → Outcome
  finish_if none = null
  finish_if (some a) = or_exits (finish_args a)

  -- `get_cat_context`, for the arguments after the name of the program.
  unfoldable pub get_cat_context : List (List ℕ) → Outcome
  unfolding parse finish_args
  get_cat_context argv = finish_if (parse argv no_args)
