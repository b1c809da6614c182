-- ===== src/Aiocb/Weights.antt =====
-- Sums over a set of descriptors (tx_aiocb.cpp), and how they change with one of them.
use libtx.Common.{
  ℕ, ◌+◌, ◌≡◌, refl, Bool, true, false, ◌||◌, List, [], ◌∷◌, arith, ◌==◌, update, ==_refl,
  Bool-cases, inl, inr, ap, subst, ◌<◌,
}
use libtx.Aiocb.{Aiocb}

abbrev pub is_in : ℕ → List ℕ → Bool
is_in p [] = false
is_in p (x ∷ xs) = (x == p) || is_in p xs

abbrev pub NoRepeat : List ℕ → Type 0
NoRepeat [] = Unit {0}
NoRepeat (x ∷ xs) = (is_in x xs ≡ false) × NoRepeat xs

-- Two memories that agree on every descriptor but `p`.
abbrev pub AgreeOff : ℕ → (f g : ℕ → Aiocb) → Type 0
AgreeOff p f g = (q : ℕ) → (q == p) ≡ false → g q ≡ f q

module _ (weight : Aiocb → ℕ) where
  abbrev pub total : List ℕ → (ℕ → Aiocb) → ℕ
  total [] filps = 0
  total (p ∷ ps) filps = weight (filps p) + total ps filps

  total-absent :
      (ps : List ℕ) (p : ℕ) (f g : ℕ → Aiocb)
      → AgreeOff p f g
      → is_in p ps ≡ false
      → total ps g ≡ total ps f
  total-absent [] p f g same e = refl
  total-absent (x ∷ xs) p f g same e =
      let ih = total-absent xs p f g same (ground arith) in
      let ne : (x == p) ≡ false = ground arith in rw (same x ne, ih) refl

  -- Where one descriptor of the set changes, the count changes by it alone.
  pub total-change :
      (ps : List ℕ) (p : ℕ) (f g : ℕ → Aiocb)
      → AgreeOff p f g
      → NoRepeat ps
      → is_in p ps ≡ true
      → total ps g + weight (f p) ≡ total ps f + weight (g p)
  total-change [] p f g same d e = absurd (cc)
  total-change (x ∷ xs) p f g same d e = elim (Bool-cases (x == p)) [
    | inl at ↦
        let q : x ≡ p = ground arith in
        let rest : total xs g ≡ total xs f =
          total-absent xs p f g same (subst (λ y. is_in y xs ≡ false) q d.0) in
        let here : weight (f x) ≡ weight (f p) = ap (λ y. weight (f y)) q in
        let there : weight (g x) ≡ weight (g p) = ap (λ y. weight (g y)) q in
        omega (arith, rest, here, there)
    | inr other ↦
        let rest = total-change xs p f g same d.1 (ground arith) in
        let there : weight (g x) ≡ weight (f x) = rw (same x other) refl in
        omega (arith, rest, there)
  ]

  -- A descriptor of the set changes, and the others do not.
  pub total-update :
      (ps : List ℕ) (filps : ℕ → Aiocb) (p : ℕ) (f : Aiocb)
      → NoRepeat ps
      → is_in p ps ≡ true
      → total ps (update filps p f) + weight (filps p) ≡ total ps filps + weight f
  total-update ps filps p f d e =
      let r = total-change ps p filps (update filps p f) (λ q ne. ground arith) d e in
      let at : weight (update filps p f p) ≡ weight f = rw (==_refl p) refl in omega (arith, r, at)

  pub total-pos :
      (ps : List ℕ) (p : ℕ) (f : ℕ → Aiocb) → is_in p ps ≡ true → 0 < weight (f p) → 0 < total ps f
  total-pos [] p f i w = cc
  total-pos (x ∷ xs) p f i w = elim (Bool-cases (x == p)) [
    | inl at ↦
        let q : x ≡ p = ground arith in
        let here : weight (f x) ≡ weight (f p) = ap (λ y. weight (f y)) q in omega (arith, here)
    | inr other ↦ omega (arith, total-pos xs p f (ground arith) w)
  ]
