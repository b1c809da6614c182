-- ===== src/Log/Levels.antt =====
-- Which messages tx_debug.cpp logs; the levels are V, D, I, W, E and F.
use Prim.Native.Nat.{bit_and, bit_xor}
use libtx.Common.{
  ℕ, ◌-◌, ◌^◌, ◌≡◌, refl, ◌∙◌, Bool, false, ◌||◌, leb, List, [], ◌∷◌, ◌++◌, some, arith,
}
use libtx.Log.{tag_bits, all_bits, logable_bits, has_bit, test_bit, log_logable}

-- The levels, the most talkative last.
pub data Level : Type 0 where
  fatal : Level
  error : Level
  warning : Level
  info : Level
  debug : Level
  verbose : Level

abbrev pub rank : Level → ℕ
rank fatal = 0
rank error = 1
rank warning = 2
rank info = 3
rank debug = 4
rank verbose = 5

abbrev pub letter : Level → ℕ
letter fatal = b'F'
letter error = b'E'
letter warning = b'W'
letter info = b'I'
letter debug = b'D'
letter verbose = b'V'

-- Some letter of a list of levels names a level that is at least as talkative.
abbrev pub admits : List Level → Level → Bool
admits [] x = false
admits (l ∷ ls) x = leb (rank x) (rank l) || admits ls x

abbrev pub letters : List Level → List ℕ
letters [] = []
letters (l ∷ ls) = letter l ∷ letters ls

has_bit-append : (b : ℕ) (xs ys : List ℕ) → has_bit b (xs ++ ys) ≡ (has_bit b xs || has_bit b ys)
unfolding has_bit
has_bit-append b [] ys = refl
has_bit-append b (x ∷ xs) ys = ground (arith, has_bit-append b xs ys)

-- The bits of one letter of LOGABLE_TAGS.
letter-bits : (x l : Level) → test_bit (letter x) (tag_bits (letter l)) ≡ leb (rank x) (rank l)
unfolding tag_bits test_bit has_bit
letter-bits fatal fatal = refl
letter-bits fatal _ = refl
letter-bits x fatal = elim x [ fatal ↦ refl | _ ↦ refl ]
letter-bits x error = elim x [ fatal ↦ refl | _ ↦ refl ]
letter-bits x warning = elim x [ fatal ↦ refl | _ ↦ refl ]
letter-bits x info = elim x [ fatal ↦ refl | _ ↦ refl ]
letter-bits x debug = elim x [ fatal ↦ refl | _ ↦ refl ]
letter-bits x verbose = elim x [ fatal ↦ refl | _ ↦ refl ]

test_bit-append :
    (tag : ℕ) (xs ys : List ℕ) → test_bit tag (xs ++ ys) ≡ (test_bit tag xs || test_bit tag ys)
unfolding test_bit
test_bit-append tag xs ys =
    ground (arith, has_bit-append (bit_and (bit_xor tag 64) (2 ^ 32 - 1 - 32)) xs ys)

levels-bits :
    (ls : List Level) (x : Level) → test_bit (letter x) (all_bits (letters ls)) ≡ admits ls x
unfolding all_bits test_bit has_bit
levels-bits [] fatal = refl
levels-bits [] _ = refl
levels-bits (l ∷ ls) x =
    test_bit-append (letter x) (tag_bits (letter l)) (all_bits (letters ls))
    ∙ rw (letter-bits x l, levels-bits ls x) refl

-- With a list of levels in LOGABLE_TAGS, and no bits yet, a message is logged if some level of the
-- list is at least as talkative as the message's.
pub logable-admits :
    (ls : List Level) (x : Level) → (log_logable (letter x) (some (letters ls)) []).0 ≡ admits ls x
unfolding log_logable logable_bits
logable-admits ls x = levels-bits ls x
