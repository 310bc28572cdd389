-- ===== src/Hex/Digits.antt =====
-- What the two tables hold: `lut` spells a byte by two digits, and `nib_lut` reads a digit.
use fast_uuid.Common.{
  ℕ, ◌+◌, ◌*◌, ◌/◌, ◌%◌, ◌<◌, ◌≡◌, ◌≢◌, refl, Bool, true, false, ◌&&◌, not, Option, none, some,
  ◌==◌, ltb, get_or, if◌then◌else◌, arith,
}
use fast_uuid.Common.Bits.{all_below, all_below_sound}
use fast_uuid.Zend.{to_lower}
use fast_uuid.Hex.{hexd, lut, nib_lut}

abbrev is_some : Option ℕ → ℕ → Bool
is_some none n = false
is_some (some m) n = m == n

abbrev opens : ℕ → Bool
opens c = if c == b'u' then true else if c == b'U' then true else c == b'{'

-- Both digits of a byte are read back, and neither can begin a wrapper.
spells : ℕ → Bool
spells x =
    is_some (nib_lut (lut (x * 2))) (x / 16)
    && is_some (nib_lut (lut (x * 2 + 1))) (x % 16)
    && not (opens (lut (x * 2)))

spells_table : all_below 256 spells ≡ true
unfolding all_below spells lut nib_lut
spells_table = refl

pub nib_lut-lut_high : (x : ℕ) → x < 256 → nib_lut (lut (x * 2)) ≡ some (x / 16)
unfolding spells
nib_lut-lut_high x h = ground (arith, all_below_sound 256 spells x spells_table h)

pub nib_lut-lut_low : (x : ℕ) → x < 256 → nib_lut (lut (x * 2 + 1)) ≡ some (x % 16)
unfolding spells
nib_lut-lut_low x h = ground (arith, all_below_sound 256 spells x spells_table h)

pub lut-ne_open :
    (x : ℕ) → x < 256 → (lut (x * 2) ≢ b'u') × (lut (x * 2) ≢ b'U') × (lut (x * 2) ≢ b'{')
unfolding spells
lut-ne_open x h = ground (arith, all_below_sound 256 spells x spells_table h)

-- A digit that is read is below 16 and, in lower case, is the one that `hexd` holds; and letter
-- case does not matter.
digit_is : ℕ → Option ℕ → Bool
digit_is c none = true
digit_is c (some v) = ltb v 16 && get_or hexd v 0 == to_lower c

same : Option ℕ → Option ℕ → Bool
same none none = true
same (some v) (some w) = v == w
same none (some w) = false
same (some v) none = false

reads : ℕ → Bool
reads c = digit_is c (nib_lut c) && same (nib_lut c) (nib_lut (to_lower c))

reads_table : all_below 256 reads ≡ true
unfolding all_below reads digit_is same nib_lut
reads_table = refl

digit_is_lem :
    (c v : ℕ) (o : Option ℕ)
    → digit_is c o ≡ true
    → o ≡ some v
    → (v < 16) × (get_or hexd v 0 ≡ to_lower c)
unfolding digit_is
digit_is_lem c v none h e = cc
digit_is_lem c v (some w) h e = ground (arith, h)

same_lem : (a b : Option ℕ) → same a b ≡ true → a ≡ b
unfolding same
same_lem none none h = refl
same_lem none (some w) h = cc
same_lem (some v) none h = cc
same_lem (some v) (some w) h = ground (arith, h)

pub nib_lut-digit :
    (c v : ℕ) → c < 256 → nib_lut c ≡ some v → (v < 16) × (get_or hexd v 0 ≡ to_lower c)
unfolding reads
nib_lut-digit c v h e =
    digit_is_lem c v (nib_lut c) (ground (arith, all_below_sound 256 reads c reads_table h)) e

pub nib_lut-to_lower : (c : ℕ) → c < 256 → nib_lut c ≡ nib_lut (to_lower c)
unfolding reads
nib_lut-to_lower c h = same_lem _ _ (ground (arith, all_below_sound 256 reads c reads_table h))

-- `lut` by the digits themselves.
lut_is : ℕ → Bool
lut_is x = lut (x * 2) == get_or hexd (x / 16) 0 && lut (x * 2 + 1) == get_or hexd (x % 16) 0

lut_table : all_below 256 lut_is ≡ true
unfolding all_below lut_is lut
lut_table = refl

pub lut-hexd :
    (x : ℕ)
    → x < 256
    → (lut (x * 2) ≡ get_or hexd (x / 16) 0) × (lut (x * 2 + 1) ≡ get_or hexd (x % 16) 0)
unfolding lut_is
lut-hexd x h = ground (arith, all_below_sound 256 lut_is x lut_table h)
