-- ===== src/Inet/Exact.antt =====
-- What `inet_pton4` (tx_platform.cpp) accepts, and what it returns.
use libtx.Common.{
  ℕ, ◌<◌, ◌≡◌, ◌↔◌, refl, true, Option, none, some, List, [], ◌∷◌, ◌++◌, arith, Option-cases, inl,
  inr, ◌∙◌, ap, sym, subst, length,
}
use mathlib.Core.List.{append_assoc, reverse}
use libtx.Inet.{Parser, start, scan, finish, inet_pton4, ◌>>=◌}
use libtx.Inet.Printing.{decimal, dotted, inet_pton4-dotted}
use libtx.Inet.Accepted.{text_done, text, AllOctets, InBuffer, full-text, scan_lem}

-- `src` is the dotted form, without leading zeros, of four octets, and `dst` these octets.
pub record IsDotted (src dst : List ℕ) : Type 0 where
  pub a : ℕ
  pub b : ℕ
  pub c : ℕ
  pub d : ℕ
  pub octets : (a < 256) × (b < 256) × (c < 256) × (d < 256)
  pub reads : src ≡ dotted a b c d
  pub gives : dst ≡ a ∷ b ∷ c ∷ d ∷ []

start-InBuffer : InBuffer start
start-InBuffer = record {
  inside = omega arith;
  counted = refl;
  octet = omega arith;
  done_octets = tt;
  blank = λ _. refl;
}

joined : (a b c d : ℕ) → text_done (c ∷ b ∷ a ∷ []) ++ decimal d ≡ dotted a b c d
joined a b c d = simp append_assoc

finish-IsDotted :
    (p : Parser) (done dst src : List ℕ)
    → p.done ≡ done
    → InBuffer p
    → text p ≡ src
    → finish p ≡ some dst
    → IsDotted src dst
unfolding finish
finish-IsDotted p [] dst src n v t e = absurd (ground (arith, v.counted))
finish-IsDotted p (c ∷ []) dst src n v t e = absurd (ground (arith, v.counted))
finish-IsDotted p (c ∷ b ∷ []) dst src n v t e = absurd (ground (arith, v.counted))
finish-IsDotted p (c ∷ b ∷ a ∷ []) dst src n v t e =
    let saw : p.saw_digit ≡ true = ground (arith, v.counted, ap (length {A = ℕ}) n) in
    let os : AllOctets (c ∷ b ∷ a ∷ []) = subst AllOctets n v.done_octets in
    let returned : dst ≡ reverse (p.current ∷ p.done) = ground arith in
    record {
      a = a;
      b = b;
      c = c;
      d = p.current;
      octets = (os.1.1.0, os.1.0, os.0, v.octet);
      reads =
          sym t
          ∙ full-text p saw
          ∙ ap (λ ds. text_done ds ++ decimal p.current) n
          ∙ joined a b c p.current;
      gives = returned ∙ ap (λ ds. reverse (p.current ∷ ds)) n;
    }
finish-IsDotted p (w ∷ c ∷ b ∷ a ∷ r) dst src n v t e = absurd (ground (arith, v.inside))

accepted-IsDotted : (src dst : List ℕ) → inet_pton4 src ≡ some dst → IsDotted src dst
unfolding inet_pton4
accepted-IsDotted src dst e = elim (Option-cases (scan src start)) [
  | inl n ↦ absurd (none-dst (ap (λ o. o >>= finish) (sym n) ∙ e))
  | inr (p, s) ↦
      let r = scan_lem src start p start-InBuffer s in
      finish-IsDotted p p.done dst src refl r.0 r.1 (ap (λ o. o >>= finish) (sym s) ∙ e)
]
  where
    none-dst : ◌≡◌ {A = Option (List ℕ)} none (some dst) → ⊥
    none-dst f = cc

-- `inet_pton4` reads the dotted forms of four octets without leading zeros, with these octets as its
-- result, and no other text.
pub inet_pton4-exact : (src dst : List ℕ) → (inet_pton4 src ≡ some dst) ↔ IsDotted src dst
inet_pton4-exact src dst = (
  accepted-IsDotted src dst,
  λ h.
      ap inet_pton4 h.reads
      ∙ inet_pton4-dotted h.a h.b h.c h.d h.octets.0 h.octets.1 h.octets.2 h.octets.3
      ∙ ap some (sym h.gives),
)

-- While `inet_pton4` reads, `tp` points into its buffer of four octets.
pub scan-inside : (src : List ℕ) (p : Parser) → scan src start ≡ some p → length p.done < 4
scan-inside src p e = (scan_lem src start p start-InBuffer e).0.inside
