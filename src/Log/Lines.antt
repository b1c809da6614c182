-- ===== src/Log/Lines.antt =====
-- What the log file gets (tx_debug.cpp): messages as lines, each with the header of its message.
use mathlib.Core.List.{append_assoc, append-nil}
use libtx.Common.{
  ℕ, ◌≡◌, refl, sym, ap, ◌∙◌, Bool, true, false, not, ◌&&◌, ◌==◌, List, [], ◌∷◌, ◌++◌, Option,
  if◌then◌else◌, length, arith, Bool-cases, inl, inr,
}
use libtx.Log.{
  LogCookie, write, log_header, log_byte, log_bytes, log_rest, log_write, log_get, log_put,
  write_pieces, log_logable, log_tag_putlog,
}

abbrev lead : Bool → List ℕ → List ℕ
lead nol header = if nol then header else []

-- A text with the header in front of each line; `nol` says whether its first byte begins a line.
abbrev pub prefixed : Bool → List ℕ → List ℕ → List ℕ
prefixed nol header [] = []
prefixed nol header (b ∷ bs) = lead nol header ++ b ∷ prefixed (b == b'\n') header bs

-- Whether the byte after a text begins a line.
abbrev pub ends_line : Bool → List ℕ → Bool
ends_line nol [] = nol
ends_line nol (b ∷ bs) = ends_line (b == b'\n') bs

-- What writing a text should do.
abbrev pub put_text : List ℕ → LogCookie → LogCookie
put_text bs c = record c {
  log_nol = ends_line c.log_nol bs;
  written = c.written ++ prefixed c.log_nol c.log_fmt bs;
}

abbrev no_newline : List ℕ → Bool
no_newline [] = true
no_newline (b ∷ bs) = not (b == b'\n') && no_newline bs

prefixed-line :
    (nol : Bool) (h buf xs : List ℕ)
    → no_newline buf ≡ true
    → prefixed nol h (buf ++ b'\n' ∷ xs) ≡ lead nol h ++ (buf ++ b'\n' ∷ prefixed true h xs)
prefixed-line nol h [] xs e = refl
prefixed-line nol h (b ∷ bs) xs e =
    let n : (b == b'\n') ≡ false = ground arith in
    rw (n) (ap (λ r. lead nol h ++ b ∷ r) (prefixed-line false h bs xs (ground arith)))

ends-line : (nol : Bool) (buf xs : List ℕ) → ends_line nol (buf ++ b'\n' ∷ xs) ≡ ends_line true xs
ends-line nol [] xs = refl
ends-line nol (b ∷ bs) xs = ends-line (b == b'\n') bs xs

prefixed-plain :
    (nol : Bool) (h bs : List ℕ) (b : ℕ)
    → no_newline (b ∷ bs) ≡ true
    → prefixed nol h (b ∷ bs) ≡ lead nol h ++ b ∷ bs
prefixed-plain nol h [] b e = refl
prefixed-plain nol h (c ∷ bs) b e =
    let n : (b == b'\n') ≡ false = ground arith in
    rw (n) (ap (λ r. lead nol h ++ b ∷ r) (prefixed-plain false h bs c (ground arith)))

ends-plain :
    (nol : Bool) (bs : List ℕ) (b : ℕ) → no_newline (b ∷ bs) ≡ true → ends_line nol (b ∷ bs) ≡ false
ends-plain nol [] b e = ground arith
ends-plain nol (c ∷ bs) b e = ends-plain (b == b'\n') bs c (ground arith)

no_newline-snoc :
    (bs : List ℕ) (p : ℕ)
    → no_newline bs ≡ true
    → (p == b'\n') ≡ false
    → no_newline (bs ++ p ∷ []) ≡ true
no_newline-snoc [] p e n = ground arith
no_newline-snoc (b ∷ bs) p e n = ground (arith, no_newline-snoc bs p (ground arith) n)

-- What `log_header` leaves.
log_header-lead :
    (c : LogCookie)
    → log_header c ≡ record c { log_nol = false; written = c.written ++ lead c.log_nol c.log_fmt }
unfolding log_header
log_header-lead c = elim (Bool-cases c.log_nol) [
  | inl n ↦ rw (n) refl
  | inr n ↦ rw (n, append-nil c.written) refl
]

-- What `_log_write` writes without a newline at the end.
log_rest-plain :
    (buf : List ℕ) (c : LogCookie) → no_newline buf ≡ true → log_rest (buf, c) ≡ put_text buf c
log_rest-plain [] c e = ap (λ w. record c { written = w }) (sym (append-nil c.written))
log_rest-plain (b ∷ bs) c e =
    rw (log_header-lead c, ends-plain c.log_nol bs b e, prefixed-plain c.log_nol c.log_fmt bs b e)
      (ap (λ w. record c { log_nol = false; written = w })
        (append_assoc c.written (lead c.log_nol c.log_fmt) (b ∷ bs)))

-- The line that a newline ends.
put_text-line :
    (buf ps : List ℕ) (c : LogCookie)
    → no_newline buf ≡ true
    → put_text ps (record (write (buf ++ b'\n' ∷ []) (log_header c)) { log_nol = true })
      ≡ put_text (buf ++ b'\n' ∷ ps) c
put_text-line buf ps c e =
    rw (log_header-lead c, ends-line c.log_nol buf ps, prefixed-line c.log_nol c.log_fmt buf ps e)
      (ap (λ w. record c { log_nol = ends_line true ps; written = w }) (simp append_assoc))

eq_of_test : (p : ℕ) → (p == b'\n') ≡ true → p ≡ b'\n'
eq_of_test p n = ground arith

log_bytes-put :
    (ps buf : List ℕ) (c : LogCookie)
    → no_newline buf ≡ true
    → log_rest (log_bytes ps (buf, c)) ≡ put_text (buf ++ ps) c
unfolding log_bytes log_byte
log_bytes-put [] buf c e = log_rest-plain buf c e ∙ ap (λ t. put_text t c) (sym (append-nil buf))
log_bytes-put (p ∷ ps) buf c e = elim (Bool-cases (p == b'\n')) [
  | inl n ↦ rw (n, eq_of_test p n) (log_bytes-put ps [] _ refl ∙ put_text-line buf ps c e)
  | inr n ↦ rw (n) (
      log_bytes-put ps (buf ++ p ∷ []) c (no_newline-snoc buf p e n)
      ∙ ap (λ t. put_text t c) (append_assoc buf (p ∷ []) ps))
]

-- `_log_write` writes the header in front of each line of the buffer, and returns its size.
pub log_write-put : (buf : List ℕ) (c : LogCookie) → log_write buf c ≡ (length buf, put_text buf c)
unfolding log_write
log_write-put buf c = ap (λ d. (length buf, d)) (log_bytes-put buf [] c refl)

prefixed-append :
    (nol : Bool) (h xs ys : List ℕ)
    → prefixed nol h (xs ++ ys) ≡ prefixed nol h xs ++ prefixed (ends_line nol xs) h ys
prefixed-append nol h [] ys = refl
prefixed-append nol h (x ∷ xs) ys =
    rw (prefixed-append (x == b'\n') h xs ys)
      (sym (append_assoc (lead nol h) (x ∷ prefixed (x == b'\n') h xs) _))

ends_line-append :
    (nol : Bool) (xs ys : List ℕ) → ends_line nol (xs ++ ys) ≡ ends_line (ends_line nol xs) ys
ends_line-append nol [] ys = refl
ends_line-append nol (x ∷ xs) ys = ends_line-append (x == b'\n') xs ys

put_text-append :
    (xs ys : List ℕ) (c : LogCookie) → put_text ys (put_text xs c) ≡ put_text (xs ++ ys) c
put_text-append xs ys c =
    rw (ends_line-append c.log_nol xs ys, prefixed-append c.log_nol c.log_fmt xs ys)
      (ap (λ w. record c { log_nol = ends_line (ends_line c.log_nol xs) ys; written = w })
        (append_assoc c.written _ _))

abbrev pub joined : List (List ℕ) → List ℕ
joined [] = []
joined (b ∷ bs) = b ++ joined bs

-- The pieces in which a message is passed on do not matter.
pieces-put : (bs : List (List ℕ)) (c : LogCookie) → write_pieces bs c ≡ put_text (joined bs) c
pieces-put [] c = ap (λ w. record c { written = w }) (sym (append-nil c.written))
pieces-put (b ∷ bs) c =
    rw (log_write-put b c) (pieces-put bs (put_text b c) ∙ put_text-append b (joined bs) c)

-- What a message should add to the log file: its lines, and an end of the last one.
abbrev pub logged : (header message : List ℕ) → List ℕ
logged header message =
    prefixed true header message ++ (if ends_line true message then [] else b'\r' ∷ b'\n' ∷ [])

log_put-end :
    (message header : List ℕ) (c : LogCookie)
    → (log_put (put_text message (log_get header c))).written ≡ c.written ++ logged header message
unfolding log_put log_get
log_put-end message header c = elim (Bool-cases (ends_line true message)) [
  | inl e ↦ rw (e) (ap (λ r. c.written ++ r) (sym (append-nil _)))
  | inr e ↦ rw (e) (append_assoc c.written _ _)
]

-- A message of a level that is logged adds its lines to the log file, each with the header in front,
-- and an end of the last line if it has none, in whatever pieces it is passed on; another message
-- adds nothing.
pub putlog-written :
    (tag : ℕ) (header : List ℕ) (pieces : List (List ℕ)) (env : Option (List ℕ)) (bits : List ℕ)
    (c : LogCookie)
    → (log_tag_putlog tag header pieces env bits c).1.written ≡ (
        if (log_logable tag env bits).0
        then c.written ++ logged header (joined pieces)
        else c.written)
unfolding log_tag_putlog
putlog-written tag header pieces env bits c = elim (Bool-cases (log_logable tag env bits).0) [
  | inl y ↦ rw (y, pieces-put pieces (log_get header c)) (log_put-end (joined pieces) header c)
  | inr y ↦ rw (y) refl
]
