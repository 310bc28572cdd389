-- ===== src/Uuid.antt =====
-- fast_uuid.c: the sixteen bytes `unsigned char b[16]` of a UUID, and `fu_set_ver_var`.
pub mod Order
use fast_uuid.Common.{ℕ, List, [], ◌∷◌, All, IsByte, get_or, bit_and, bit_or}

-- `unsigned char b[16]`, an entry for each index.
pub record Uuid : Type 0 where
  pub b0 : ℕ
  pub b1 : ℕ
  pub b2 : ℕ
  pub b3 : ℕ
  pub b4 : ℕ
  pub b5 : ℕ
  pub b6 : ℕ
  pub b7 : ℕ
  pub b8 : ℕ
  pub b9 : ℕ
  pub b10 : ℕ
  pub b11 : ℕ
  pub b12 : ℕ
  pub b13 : ℕ
  pub b14 : ℕ
  pub b15 : ℕ

-- The array in order of its indices.
abbrev pub to_list : Uuid → List ℕ
to_list u =
    u.b0 ∷ u.b1 ∷ u.b2 ∷ u.b3 ∷ u.b4 ∷ u.b5 ∷ u.b6 ∷ u.b7 ∷ u.b8 ∷ u.b9 ∷ u.b10 ∷ u.b11 ∷ u.b12
    ∷ u.b13 ∷ u.b14 ∷ u.b15 ∷ []

-- `memcpy(b, xs, 16)`; an entry past the end of `xs` reads 0.
abbrev pub of_list : List ℕ → Uuid
of_list xs = record {
  b0 = get_or xs 0 0;
  b1 = get_or xs 1 0;
  b2 = get_or xs 2 0;
  b3 = get_or xs 3 0;
  b4 = get_or xs 4 0;
  b5 = get_or xs 5 0;
  b6 = get_or xs 6 0;
  b7 = get_or xs 7 0;
  b8 = get_or xs 8 0;
  b9 = get_or xs 9 0;
  b10 = get_or xs 10 0;
  b11 = get_or xs 11 0;
  b12 = get_or xs 12 0;
  b13 = get_or xs 13 0;
  b14 = get_or xs 14 0;
  b15 = get_or xs 15 0;
}

-- Every entry is a byte.
abbrev pub IsBytes : Uuid → Type 0
IsBytes u = All IsByte (to_list u)

-- `fu_set_ver_var`: the version nibble, and the RFC variant bits.
unfoldable pub set_ver_var : Uuid → ℕ → Uuid
set_ver_var b ver_hi = record b {
  b6 = bit_or (bit_and b.b6 0x0f) ver_hi;
  b8 = bit_or (bit_and b.b8 0x3f) 0x80;
}
