-- ===== src/Hex.antt =====
-- fast_uuid.c, formatting: the tables that `PHP_MINIT_FUNCTION` builds, `fu_hex32_scalar` and
-- `fu_format36`. Text is the list of its byte codes.
pub mod Digits
pub mod Simd
use fast_uuid.Common.{
  ℕ, zero, suc, ◌+◌, ◌*◌, ◌/◌, ◌%◌, ◌^◌, List, [], ◌∷◌, ◌++◌, Option, none, some, get_or, set, take,
  drop, replicate, bit_and,
}
use fast_uuid.Uuid.{Uuid, to_list}

-- `fu_hexd`
abbrev pub hexd : List ℕ
hexd =
    b'0' ∷ b'1' ∷ b'2' ∷ b'3' ∷ b'4' ∷ b'5' ∷ b'6' ∷ b'7' ∷ b'8' ∷ b'9' ∷ b'a' ∷ b'b' ∷ b'c' ∷ b'd'
    ∷ b'e' ∷ b'f' ∷ []

-- The rounds `i`, `i + 1`, … of the loop in MINIT that fills `fu_lut`, two entries a round.
lut_rounds : ℕ → ℕ → List ℕ
lut_rounds zero i = []
lut_rounds (suc n) i =
    get_or hexd (i / 2 ^ 4) 0 ∷ get_or hexd (bit_and i 0x0f) 0 ∷ lut_rounds n (i + 1)

-- `fu_lut[i]`
unfoldable pub lut : ℕ → ℕ
unfolding lut_rounds
lut i = get_or (lut_rounds 256 0) i 0

-- Rounds of the loops in MINIT that write `base + i`, `base + i + 1`, … with the digit `v + i`.
nib_rounds : ℕ → ℕ → ℕ → List (Option ℕ) → List (Option ℕ)
nib_rounds zero base v t = t
nib_rounds (suc n) base v t = nib_rounds n (base + 1) (v + 1) (set t base (some v))

-- The loop over the letters writes one small and one capital letter a round.
letter_rounds : ℕ → ℕ → List (Option ℕ) → List (Option ℕ)
letter_rounds zero i t = t
letter_rounds (suc n) i t =
    letter_rounds n (i + 1) (set (set t (b'a' + i) (some (10 + i))) (b'A' + i) (some (10 + i)))

-- `fu_nib_lut[c]`, where `none` is the entry -1.
pub nib_lut : ℕ → Option ℕ
unfolding nib_rounds letter_rounds
nib_lut c = get_or (letter_rounds 6 0 (nib_rounds 10 b'0' 0 (replicate 256 none))) c none

-- The loop of `fu_hex32_scalar` over the bytes that are left.
unfoldable pub hex_bytes : List ℕ → List ℕ
hex_bytes [] = []
hex_bytes (x ∷ xs) = lut (x * 2) ∷ lut (x * 2 + 1) ∷ hex_bytes xs

unfoldable pub hex32_scalar : Uuid → List ℕ
unfolding hex_bytes
hex32_scalar b = hex_bytes (to_list b)

-- `fu_format36`, on the 32 digits `h`: canonical 8-4-4-4-12.
unfoldable pub insert_dashes : List ℕ → List ℕ
insert_dashes h =
    take 8 h
    ++ b'-'
      ∷ (take 4 (drop 8 h)
          ++ b'-'
            ∷ (take 4 (drop 12 h) ++ b'-' ∷ (take 4 (drop 16 h) ++ b'-' ∷ take 12 (drop 20 h))))

unfoldable pub format36 : Uuid → List ℕ
unfolding hex32_scalar insert_dashes
format36 b = insert_dashes (hex32_scalar b)
