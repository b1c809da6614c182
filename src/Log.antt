-- ===== src/Log.antt =====
-- tx_debug.cpp: which messages are logged, and how a message is written with a header in front of
-- each of its lines.
--
-- A text is the list of its bytes. `written` is what `log_fd` has got; a short `write` fails an
-- assertion, so all is written. `_logable_bits` is the sequence of the positions of the bits that are
-- set. The code is that of a system where stdio calls `_log_write`; the formatting of a message and
-- of its header, and in what pieces stdio passes the message on, are arguments.
pub mod Levels
pub mod Lines
mod Tests
use Prim.Native.Nat.{bit_and, bit_xor}
use libtx.Common.{
  ℕ, ◌+◌, ◌-◌, ◌^◌, Bool, true, false, not, ◌&&◌, ◌||◌, ◌==◌, leb, ltb, Option, none, some, List,
  [], ◌∷◌, ◌++◌, if◌then◌else◌, length,
}

-- `log_fmt` with its length `log_len`; `log_nol`: the next byte begins a line.
pub record LogCookie : Type 0 where
  pub log_nol : Bool
  pub log_fmt : List ℕ
  pub written : List ℕ

abbrev pub write : List ℕ → LogCookie → LogCookie
write bytes c = record c { written = c.written ++ bytes }

unfoldable pub log_header : LogCookie → LogCookie
log_header c = if c.log_nol then write c.log_fmt (record c { log_nol = false }) else c

-- `buf` up to `p`, that is what is read but not yet written, with the cookie.
abbrev pub Pending : Type 0
Pending = List ℕ × LogCookie

-- One round of the `for`.
unfoldable pub log_byte : ℕ → Pending → Pending
unfolding log_header
log_byte p (buf, c) =
    if p == b'\n'
    then ([], record (write (buf ++ p ∷ []) (log_header c)) { log_nol = true })
    else (buf ++ p ∷ [], c)

unfoldable pub log_bytes : List ℕ → Pending → Pending
log_bytes [] s = s
log_bytes (p ∷ ps) s = log_bytes ps (log_byte p s)

-- `if (buf < buf_limit)`, after the `for`.
abbrev pub log_rest : Pending → LogCookie
log_rest ([], c) = c
log_rest (p ∷ ps, c) = write (p ∷ ps) (log_header c)

-- What `_log_write` returns, and the cookie.
unfoldable pub log_write : List ℕ → LogCookie → ℕ × LogCookie
log_write buf c = (length buf, log_rest (log_bytes buf ([], c)))

-- `log_get`: the header of the message, and a new line.
unfoldable pub log_get : List ℕ → LogCookie → LogCookie
log_get header c = record c { log_fmt = header; log_nol = true }

-- `log_put`, after `fflush`.
unfoldable pub log_put : LogCookie → LogCookie
log_put c = if c.log_nol then c else write (b'\r' ∷ b'\n' ∷ []) c

-- The pieces of a message that `vfprintf` and `fflush` pass to `_log_write`.
abbrev pub write_pieces : List (List ℕ) → LogCookie → LogCookie
write_pieces [] c = c
write_pieces (b ∷ bs) c = write_pieces bs (log_write b c).1

-- `1 << (c - 0x40)`, with the levels below it: the cases of the `switch` fall through.
unfoldable pub tag_bits : ℕ → List ℕ
tag_bits c =
    if c == b'V' || c == b'v'
    then 22 ∷ 4 ∷ 9 ∷ 23 ∷ 5 ∷ 6 ∷ []
    else if c == b'D' || c == b'd'
    then 4 ∷ 9 ∷ 23 ∷ 5 ∷ 6 ∷ []
    else if c == b'I' || c == b'i'
    then 9 ∷ 23 ∷ 5 ∷ 6 ∷ []
    else if c == b'W' || c == b'w'
    then 23 ∷ 5 ∷ 6 ∷ []
    else if c == b'E' || c == b'e'
    then 5 ∷ 6 ∷ []
    else if c == b'F' || c == b'f'
    then 6 ∷ []
    else if leb 64 c && ltb c 96
    then (c - 64) ∷ []
    else []

unfoldable pub all_bits : List ℕ → List ℕ
all_bits [] = []
all_bits (c ∷ tags) = tag_bits c ++ all_bits tags

-- "EFIW".
abbrev pub default_logable_tags : List ℕ
default_logable_tags = b'E' ∷ b'F' ∷ b'I' ∷ b'W' ∷ []

abbrev pub tags_or : Option (List ℕ) → List ℕ
tags_or none = default_logable_tags
tags_or (some tags) = tags

-- `_logable_bits` after `if (_logable_bits == 0)`; `env` is the value of LOGABLE_TAGS.
unfoldable pub logable_bits : Option (List ℕ) → List ℕ → List ℕ
logable_bits env [] = all_bits (tags_or env)
logable_bits env (b ∷ bs) = b ∷ bs

unfoldable pub has_bit : ℕ → List ℕ → Bool
has_bit b [] = false
has_bit b (c ∷ cs) = b == c || has_bit b cs

-- The last two lines, for the first byte of the tag; `~0x20` is on 32 bits.
unfoldable pub test_bit : ℕ → List ℕ → Bool
test_bit tag bits =
    let bitoff = bit_and (bit_xor tag 64) (2 ^ 32 - 1 - 32) in
    bit_and bitoff 192 == 0 && has_bit bitoff bits

-- What `log_logable` returns for a tag that is not NULL, and the new `_logable_bits`.
unfoldable pub log_logable : ℕ → Option (List ℕ) → List ℕ → Bool × List ℕ
log_logable tag env bits = let b = logable_bits env bits in (test_bit tag b, b)

-- `log_tag_putlog`, as it changes the cookie and the bits.
unfoldable pub log_tag_putlog :
    ℕ
    → (header : List ℕ) → (pieces : List (List ℕ)) → Option (List ℕ)
    → List ℕ
    → LogCookie
    → List ℕ × LogCookie
unfolding log_logable log_put log_get
log_tag_putlog tag header pieces env bits c =
    let r = log_logable tag env bits in
    (r.1, if r.0 then log_put (write_pieces pieces (log_get header c)) else c)
