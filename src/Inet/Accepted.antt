-- ===== src/Inet/Accepted.antt =====
-- The state of `inet_pton4` (tx_platform.cpp) after each byte, and the text that it has read.
use libtx.Common.{
  ℕ, ◌+◌, ◌-◌, ◌*◌, ◌<◌, ◌≡◌, refl, true, false, Option, none, some, List, [], ◌∷◌, ◌++◌, arith,
  if◌then◌else◌, Bool-cases, Option-cases, inl, inr, ◌∙◌, ap, sym, subst, ◌≢◌, length,
}
use mathlib.Core.List.{append-nil, append_assoc}
use libtx.Inet.{Parser, is_digit, digit, dot, round, scan, ◌>>=◌}
use libtx.Inet.Printing.{decimal}

-- The text that the octets behind `tp` stand for.
abbrev pub text_done : List ℕ → List ℕ
text_done [] = []
text_done (n ∷ ns) = text_done ns ++ (decimal n ++ b'.' ∷ [])

abbrev pub text : Parser → List ℕ
text p = if p.saw_digit then text_done p.done ++ decimal p.current else text_done p.done

abbrev pub AllOctets : List ℕ → Type 0
AllOctets [] = Unit {0}
AllOctets (n ∷ ns) = (n < 256) × AllOctets ns

-- `tp - tmp` is the length of `done`, and `tmp` holds four octets.
pub record InBuffer (p : Parser) : Type 0 where
  pub inside : length p.done < 4
  pub counted : p.octets ≡ (if p.saw_digit then length p.done + 1 else length p.done)
  pub octet : p.current < 256
  pub done_octets : AllOctets p.done
  pub blank : p.saw_digit ≡ false → p.current ≡ 0

digit-InBuffer :
    (ch : ℕ) (p q : Parser) → is_digit ch ≡ true → InBuffer p → digit ch p ≡ some q → InBuffer q
unfolding digit
digit-InBuffer ch p q i v e = ground arith

dot-InBuffer : (p q : Parser) → p.saw_digit ≡ true → InBuffer p → dot p ≡ some q → InBuffer q
unfolding dot
dot-InBuffer p q i v e = ground arith

decimal-next :
    (n d : ℕ)
    → 0 < n
    → d < 10
    → n * 10 + d < 256
    → decimal (n * 10 + d) ≡ decimal n ++ (b'0' + d) ∷ []
decimal-next n d p h e = ground arith

pub none-bind : {q : Parser} → ◌≡◌ {A = Option Parser} none (some q) → ⊥
none-bind e = cc

-- A digit ends the same octets as before, and is the last digit of the octet at hand.
record Appended (ch : ℕ) (p q : Parser) : Type 0 where
  seen : q.saw_digit ≡ true
  same : q.done ≡ p.done
  digits : decimal q.current ≡ (if p.saw_digit then decimal p.current else []) ++ ch ∷ []

one-digit : (ch : ℕ) → is_digit ch ≡ true → decimal (0 * 10 + (ch - b'0')) ≡ ch ∷ []
one-digit ch i = ground arith

more-digits :
    (n ch : ℕ)
    → is_digit ch ≡ true
    → n ≢ 0
    → n * 10 + (ch - b'0') < 256
    → decimal (n * 10 + (ch - b'0')) ≡ decimal n ++ ch ∷ []
more-digits n ch i p h =
    decimal-next n (ch - b'0') (omega arith) (ground arith) h
    ∙ ap (λ c. decimal n ++ c ∷ []) (ground arith)

digit-Appended :
    (ch : ℕ) (p q : Parser)
    → is_digit ch ≡ true
    → InBuffer p
    → digit ch p ≡ some q
    → Appended ch p q
unfolding digit
digit-Appended ch p q i v e = record {
  seen = ground arith;
  same = ground arith;
  digits = elim (Bool-cases p.saw_digit) [
    | inl s ↦
        let new : q.current ≡ p.current * 10 + (ch - b'0') = ground arith in
        rw (s, new) (more-digits p.current ch i (ground arith) (ground arith))
    | inr s ↦
        let new : q.current ≡ 0 * 10 + (ch - b'0') = ground (arith, v.blank s) in
        rw (s, new) (one-digit ch i)
  ];
}

pub full-text : (p : Parser) → p.saw_digit ≡ true → text p ≡ text_done p.done ++ decimal p.current
full-text p s = ground arith

split-text :
    (p : Parser) → text p ≡ text_done p.done ++ (if p.saw_digit then decimal p.current else [])
split-text p = elim (Bool-cases p.saw_digit) [
  | inl s ↦ rw s refl
  | inr s ↦ rw s (sym (append-nil (text_done p.done)))
]

digit-text :
    (ch : ℕ) (p q : Parser)
    → is_digit ch ≡ true
    → InBuffer p
    → digit ch p ≡ some q
    → text q ≡ text p ++ ch ∷ []
digit-text ch p q i v e =
    let a = digit-Appended ch p q i v e in
    full-text q a.seen
    ∙ ap (λ d. text_done d ++ decimal q.current) a.same
    ∙ ap (λ d. text_done p.done ++ d) a.digits
    ∙ sym
        (append_assoc (text_done p.done) (if p.saw_digit then decimal p.current else []) (ch ∷ []))
    ∙ ap (λ t. t ++ ch ∷ []) (sym (split-text p))

dot-text : (p q : Parser) → p.saw_digit ≡ true → dot p ≡ some q → text q ≡ text p ++ b'.' ∷ []
unfolding dot
dot-text p q i e =
    let closed : text q ≡ text_done p.done ++ (decimal p.current ++ b'.' ∷ []) = ground arith in
    closed
    ∙ sym (append_assoc (text_done p.done) (decimal p.current) (b'.' ∷ []))
    ∙ ap (λ t. t ++ b'.' ∷ []) (sym (full-text p i))

-- A round that goes on takes one byte off the text, and stays inside the buffer.
round_lem :
    (ch : ℕ) (p q : Parser)
    → InBuffer p
    → round ch p ≡ some q
    → InBuffer q × (text q ≡ text p ++ ch ∷ [])
unfolding round
round_lem ch p q v e = elim (Bool-cases (is_digit ch)) [
  | inl i ↦
      let f : digit ch p ≡ some q = ground arith in
      (digit-InBuffer ch p q i v f, digit-text ch p q i v f)
  | inr n ↦
      let s : p.saw_digit ≡ true = ground arith in
      let c : ch ≡ b'.' = ground arith in
      let f : dot p ≡ some q = ground arith in
      (dot-InBuffer p q s v f, dot-text p q s f ∙ ap (λ b. text p ++ b ∷ []) (sym c))
]

pub scan_lem :
    (src : List ℕ) (p q : Parser)
    → InBuffer p
    → scan src p ≡ some q
    → InBuffer q × (text q ≡ text p ++ src)
unfolding scan
scan_lem [] p q v e =
    let same : p ≡ q = cc in (subst InBuffer same v, ap text (sym same) ∙ sym (append-nil (text p)))
scan_lem (ch ∷ src) p q v e = elim (Option-cases (round ch p)) [
  | inl n ↦ absurd (none-bind (ap (λ o. o >>= scan src) (sym n) ∙ e))
  | inr (r, s) ↦
      let here = round_lem ch p r v s in
      let ih = scan_lem src r q here.0 (ap (λ o. o >>= scan src) (sym s) ∙ e) in
      (ih.0, ih.1 ∙ ap (λ t. t ++ src) here.1 ∙ append_assoc (text p) (ch ∷ []) src)
]
