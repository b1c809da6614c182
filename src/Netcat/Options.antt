-- ===== src/Netcat/Options.antt =====
-- `get_cat_options` of ncatutil.cpp: the options of netcat, which `-o` gives.
use libtx.Common.{
  ℕ, zero, suc, ◌≤◌, ◌≡◌, refl, sym, ap, ◌∙◌, Bool, true, false, not, ◌&&◌, ◌==◌, Option, none,
  some, List, [], ◌∷◌, ◌++◌, length, arith, if◌then◌else◌,
}
use mathlib.Core.List.{append_assoc, append-nil}
use libtx.Netcat.{Netcat, same_text}

-- sizeof (options).
abbrev options_size : ℕ
options_size = 8192

abbrev enabled : List ℕ
enabled = b'e' ∷ b'n' ∷ b'a' ∷ b'b' ∷ b'l' ∷ b'e' ∷ b'd' ∷ []

-- `val` where it is returned: `enabled` if there has been no '=' since the last ','.
abbrev value : Option (List ℕ) → List ℕ
value none = enabled
value (some v) = v

-- A byte that is neither '=' nor ',' belongs to `val`, and to `key` before any '='.
abbrev add_byte : ℕ → List ℕ → Option (List ℕ) → List ℕ × Option (List ℕ)
add_byte c key none = (key ++ (c ∷ []), none)
add_byte c key (some v) = (key, some (v ++ (c ∷ [])))

-- The texts at `key` and `val` up to the next byte, after this one.
abbrev next_byte : ℕ → List ℕ → Option (List ℕ) → List ℕ × Option (List ℕ)
next_byte c key val =
    if c == b'=' then (key, some []) else if c == b',' then ([], none) else add_byte c key val

-- The `for` and the comparison behind it, at the rest of `options`.
unfoldable search : List ℕ → (key : List ℕ) (val : Option (List ℕ)) → List ℕ → Option (List ℕ)
search name key val [] = if same_text name key then some (value val) else none
search name key val (c ∷ cs) =
    let (key', val') = next_byte c key val in
    let rest = search name key' val' cs in
    if c == b',' && same_text name key then some (value val) else rest

-- `strncpy`, with the end put after at most 8191 bytes.
unfoldable copied_options : ℕ → List ℕ → List ℕ
copied_options zero s = []
copied_options (suc n) [] = []
copied_options (suc n) (c ∷ cs) = c ∷ copied_options n cs

unfoldable pub get_cat_options : Netcat → List ℕ → Option (List ℕ)
unfolding search copied_options
get_cat_options upp name = elim upp.option [
  | none ↦ none
  | some option ↦ search name [] none (copied_options 8191 option)
]

-- A list of options, each a name with or without a value, and how it is written.
abbrev print_option : List ℕ × Option (List ℕ) → List ℕ
print_option (key, none) = key
print_option (key, some v) = key ++ (b'=' ∷ v)

unfoldable pub print_options : List (List ℕ × Option (List ℕ)) → List ℕ
print_options [] = []
print_options (o ∷ []) = print_option o
print_options (o ∷ p ∷ os) = print_option o ++ (b',' ∷ print_options (p ∷ os))

-- The value of the first option with the name.
unfoldable pub lookup : List ℕ → List (List ℕ × Option (List ℕ)) → Option (List ℕ)
lookup name [] = none
lookup name ((key, v) ∷ os) =
    let rest = lookup name os in if same_text name key then some (value v) else rest

unfoldable pub is_plain : List ℕ → Bool
is_plain [] = true
is_plain (c ∷ cs) = not (c == b'=') && not (c == b',') && is_plain cs

abbrev PlainValue : Option (List ℕ) → Type 0
PlainValue none = Unit
PlainValue (some v) = is_plain v ≡ true

-- No name and no value holds a '=' or a ','.
unfoldable pub Plain : List (List ℕ × Option (List ℕ)) → Type 0
Plain [] = Unit
Plain ((key, v) ∷ os) = (is_plain key ≡ true) × PlainValue v × Plain os

is_plain-cases :
    (c : ℕ) (cs : List ℕ)
    → is_plain (c ∷ cs) ≡ true
    → ((c == b',') ≡ false) × ((c == b'=') ≡ false) × (is_plain cs ≡ true)
unfolding is_plain
is_plain-cases c cs h = (ground arith, ground arith, ground arith)

search-key :
    (name acc k rest : List ℕ)
    → is_plain k ≡ true
    → search name acc none (k ++ rest) ≡ search name (acc ++ k) none rest
unfolding search
search-key name acc [] rest h = rw (append-nil acc) refl
search-key name acc (c ∷ k) rest h =
    let n = is_plain-cases c k h in
    rw (n.0, n.1, search-key name (acc ++ (c ∷ [])) k rest n.2, append_assoc acc (c ∷ []) k) refl

search-value :
    (name key acc v rest : List ℕ)
    → is_plain v ≡ true
    → search name key (some acc) (v ++ rest) ≡ search name key (some (acc ++ v)) rest
unfolding search
search-value name key acc [] rest h = rw (append-nil acc) refl
search-value name key acc (c ∷ v) rest h =
    let n = is_plain-cases c v h in
    rw (n.0, n.1, search-value name key (acc ++ (c ∷ [])) v rest n.2, append_assoc acc (c ∷ []) v)
      refl

search-option :
    (name key rest : List ℕ) (v : Option (List ℕ))
    → is_plain key ≡ true
    → PlainValue v
    → search name [] none (print_option (key, v) ++ rest) ≡ search name key v rest
unfolding search
search-option name key rest none h w = search-key name [] key rest h
search-option name key rest (some v) h w =
    rw (append_assoc key (b'=' ∷ v) rest, search-key name [] key (b'=' ∷ v ++ rest) h)
      (search-value name key [] v rest w)

search-comma :
    (name key rest : List ℕ) (v : Option (List ℕ))
    → search name key v (b',' ∷ rest)
      ≡ (if same_text name key then some (value v) else search name [] none rest)
unfolding search
search-comma name key rest v = refl

search-print :
    (name : List ℕ) (o : List ℕ × Option (List ℕ)) (os : List (List ℕ × Option (List ℕ)))
    → Plain (o ∷ os)
    → search name [] none (print_options (o ∷ os)) ≡ lookup name (o ∷ os)
unfolding Plain print_options lookup search
search-print name (key, v) [] h =
    sym (ap (search name [] none) (append-nil (print_option (key, v))))
    ∙ search-option name key [] v h.0 h.1
search-print name (key, v) (p ∷ os) h =
    search-option name key (b',' ∷ print_options (p ∷ os)) v h.0 h.1
    ∙ search-comma name key (print_options (p ∷ os)) v
    ∙ rw (search-print name p os h.2) refl

copied_options-short : (n : ℕ) (s : List ℕ) → length s ≤ n → copied_options n s ≡ s
unfolding copied_options
copied_options-short zero [] h = refl
copied_options-short (suc n) [] h = refl
copied_options-short zero (c ∷ s) h = absurd (ground arith)
copied_options-short (suc n) (c ∷ s) h = ap (λ r. c ∷ r) (copied_options-short n s (ground arith))

-- If a list of options, of which no name and no value holds a '=' or a ',', is written with commas
-- between them in at most 8191 bytes and given to `-o`, then `get_cat_options` returns the value of
-- the first option with the name, "enabled" if it has none, and NULL if there is no such option.
pub get_cat_options-print :
    (upp : Netcat) (name : List ℕ) (o : List ℕ × Option (List ℕ))
    → (os : List (List ℕ × Option (List ℕ))) → Plain (o ∷ os)
    → length (print_options (o ∷ os)) ≤ 8191
    → upp.option ≡ some (print_options (o ∷ os))
    → get_cat_options upp name ≡ lookup name (o ∷ os)
unfolding get_cat_options
get_cat_options-print upp name o os h n e =
    rw (e, copied_options-short 8191 (print_options (o ∷ os)) n) (search-print name o os h)
