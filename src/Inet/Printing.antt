-- ===== src/Inet/Printing.antt =====
-- Dotted addresses as texts for `inet_pton4` (tx_platform.cpp).
use libtx.Common.{
  ℕ, ◌+◌, ◌*◌, ◌/◌, ◌%◌, ◌<◌, ◌≡◌, refl, true, false, some, List, [], ◌∷◌, ◌++◌, arith, ltb, ◌==◌,
  if◌then◌else◌, Bool-cases, inl, inr, ◌∙◌, ap, sym,
}
use mathlib.Core.List.{append-nil}
use libtx.Inet.{Parser, start, dot, round, scan, finish, inet_pton4, ◌>>=◌}

-- The decimal digits of an octet, with no zero in front.
abbrev pub decimal : ℕ → List ℕ
decimal n =
    if ltb n 10
    then (b'0' + n) ∷ []
    else if ltb n 100
    then (b'0' + n / 10) ∷ (b'0' + n % 10) ∷ []
    else (b'0' + n / 100) ∷ (b'0' + n / 10 % 10) ∷ (b'0' + n % 10) ∷ []

abbrev pub dotted : (a b c d : ℕ) → List ℕ
dotted a b c d = decimal a ++ b'.' ∷ (decimal b ++ b'.' ∷ (decimal c ++ b'.' ∷ decimal d))

-- The parser at the start of an octet, and after it.
abbrev pub fresh : ℕ → List ℕ → Parser
fresh k done = record { saw_digit = false; octets = k; done = done; current = 0 }

abbrev pub full : ℕ → List ℕ → ℕ → Parser
full k done n = record { saw_digit = true; octets = k; done = done; current = n }

first-digit :
    (k d : ℕ) (done : List ℕ)
    → k < 4
    → d < 10
    → round (b'0' + d) (fresh k done) ≡ some (full (k + 1) done d)
unfolding round
first-digit k d done h e = ground arith

next-digit :
    (k n d : ℕ) (done : List ℕ)
    → 0 < n
    → d < 10
    → n * 10 + d < 256
    → round (b'0' + d) (full k done n) ≡ some (full k done (n * 10 + d))
unfolding round
next-digit k n d done p h e = ground arith

two_digits :
    (k a b : ℕ) (done rest : List ℕ)
    → k < 4
    → 0 < a
    → a < 10
    → b < 10
    → a * 10 + b < 256
    → scan ((b'0' + a) ∷ (b'0' + b) ∷ rest) (fresh k done)
      ≡ scan rest (full (k + 1) done (a * 10 + b))
unfolding scan
two_digits k a b done rest h p u v w =
    rw (first-digit k a done h u) (rw (next-digit (k + 1) a b done p v w) refl)

three_digits :
    (k a b c : ℕ) (done rest : List ℕ)
    → k < 4
    → 0 < a
    → a < 10
    → b < 10
    → c < 10
    → (a * 10 + b) * 10 + c < 256
    → scan ((b'0' + a) ∷ (b'0' + b) ∷ (b'0' + c) ∷ rest) (fresh k done)
      ≡ scan rest (full (k + 1) done ((a * 10 + b) * 10 + c))
unfolding scan
three_digits k a b c done rest h p u v w z =
    two_digits k a b done ((b'0' + c) ∷ rest) h p u v (omega arith)
    ∙ rw (next-digit (k + 1) (a * 10 + b) c done (omega arith) w z) refl

scan-decimal :
    (k n : ℕ) (done rest : List ℕ)
    → k < 4
    → n < 256
    → scan (decimal n ++ rest) (fresh k done) ≡ scan rest (full (k + 1) done n)
unfolding scan
scan-decimal k n done rest h e = elim (Bool-cases (ltb n 10)) [
  | inl small ↦ rw (small, scan) (rw (first-digit k n done h (ground arith)) refl)
  | inr big ↦ elim (Bool-cases (ltb n 100)) [
    | inl two ↦
        rw (big, two)
          (two_digits k (n / 10) (n % 10) done rest h (ground arith) (ground arith) (omega arith)
              (ground arith)
            ∙ ap (λ m. scan rest (full (k + 1) done m)) (omega arith))
    | inr three ↦
        rw (big, three)
          (three_digits k (n / 100) (n / 10 % 10) (n % 10) done rest h (ground arith) (omega arith)
              (omega arith) (omega arith) (omega arith)
            ∙ ap (λ m. scan rest (full (k + 1) done m)) (omega arith))
  ]
]

scan-dot :
    (k n : ℕ) (done rest : List ℕ)
    → k < 4
    → scan (b'.' ∷ rest) (full k done n) ≡ scan rest (fresh k (n ∷ done))
unfolding scan round dot
scan-dot k n done rest h = let e : (k == 4) ≡ false = ground arith in rw (e, dot) refl

-- The dotted form of four octets is read as these.
pub inet_pton4-dotted :
    (a b c d : ℕ)
    → a < 256
    → b < 256
    → c < 256
    → d < 256
    → inet_pton4 (dotted a b c d) ≡ some (a ∷ b ∷ c ∷ d ∷ [])
unfolding inet_pton4 finish scan
inet_pton4-dotted a b c d ha hb hc hd = ap (λ o. o >>= finish) whole
  where
    last : scan (decimal d ++ []) (fresh 3 (c ∷ b ∷ a ∷ [])) ≡ some (full 4 (c ∷ b ∷ a ∷ []) d)
    last = scan-decimal 3 d (c ∷ b ∷ a ∷ []) [] (omega arith) hd ∙ refl

    whole : scan (dotted a b c d) start ≡ some (full 4 (c ∷ b ∷ a ∷ []) d)
    whole =
        scan-decimal 0 a [] (b'.' ∷ (decimal b ++ b'.' ∷ (decimal c ++ b'.' ∷ decimal d)))
          (omega arith) ha
        ∙ scan-dot 1 a [] _ (omega arith)
        ∙ scan-decimal 1 b (a ∷ []) _ (omega arith) hb
        ∙ scan-dot 2 b (a ∷ []) _ (omega arith)
        ∙ scan-decimal 2 c (b ∷ a ∷ []) _ (omega arith) hc
        ∙ scan-dot 3 c (b ∷ a ∷ []) _ (omega arith)
        ∙ ap (λ t. scan t (fresh 3 (c ∷ b ∷ a ∷ []))) (sym (append-nil (decimal d)))
        ∙ last
