-- ===== src/Hex/Simd.antt =====
-- fast_uuid.c, formatting: `fu_hex32_ssse3`, `fu_hex32_neon` and `fu_hex32`, which chooses one. A
-- register is the list of its sixteen bytes, the lowest first; the compiler's intrinsics on it are
-- parameters, with what their manuals say of them.
pub mod Scalar
use fast_uuid.Common.{
  ℕ, zero, suc, ◌+◌, ◌*◌, ◌/◌, ◌%◌, ◌^◌, ◌≡◌, Bool, true, false, List, [], ◌∷◌, ◌++◌, map, take,
  drop, replicate, get_or, ltb, if◌then◌else◌, bit_and,
}
use fast_uuid.Uuid.{Uuid, to_list}
use fast_uuid.Hex.{hexd, hex32_scalar}

abbrev pub Register : Type 0
Register = List ℕ

-- Byte by byte.
unfoldable pub bytewise : (ℕ → ℕ → ℕ) → Register → Register → Register
bytewise f [] q = []
bytewise f (a ∷ r) [] = []
bytewise f (a ∷ r) (b ∷ q) = f a b ∷ bytewise f r q

-- Every lane of 16 bits, low byte first, moved `n` bits to the right.
unfoldable pub shifted_lanes : ℕ → Register → Register
shifted_lanes n [] = []
shifted_lanes n (a ∷ []) = a ∷ []
shifted_lanes n (a ∷ (b ∷ r)) =
    let lane = (a + 2 ^ 8 * b) / 2 ^ n in (lane % 2 ^ 8) ∷ (lane / 2 ^ 8) ∷ shifted_lanes n r

-- The bytes of both in turn.
unfoldable pub interleaved : Register → Register → Register
interleaved [] q = []
interleaved (a ∷ r) [] = []
interleaved (a ∷ r) (b ∷ q) = a ∷ b ∷ interleaved r q

-- The entry of a table of 16 at the low bits of an index, and 0 where the top bit is set.
abbrev pub shuffled : Register → ℕ → ℕ
shuffled t i = if ltb i 0x80 then get_or t (i % 16) 0 else 0

-- The entry of a table of 16, and 0 out of range.
abbrev pub looked_up : Register → ℕ → ℕ
looked_up t i = if ltb i 16 then get_or t i 0 else 0

-- The SSSE3 intrinsics that the formatter uses.
pub record Ssse3 : Type 0 where
  pub mm_and_si128 : Register → Register → Register
  pub mm_srli_epi16 : Register → ℕ → Register
  pub mm_shuffle_epi8 : Register → Register → Register
  pub mm_unpacklo_epi8 : Register → Register → Register
  pub mm_unpackhi_epi8 : Register → Register → Register
  pub and_law : (a b : Register) → mm_and_si128 a b ≡ bytewise bit_and a b
  pub srli_law : (a : Register) (n : ℕ) → mm_srli_epi16 a n ≡ shifted_lanes n a
  pub shuffle_law : (t i : Register) → mm_shuffle_epi8 t i ≡ map (shuffled t) i
  pub unpacklo_law : (a b : Register) → mm_unpacklo_epi8 a b ≡ interleaved (take 8 a) (take 8 b)
  pub unpackhi_law : (a b : Register) → mm_unpackhi_epi8 a b ≡ interleaved (drop 8 a) (drop 8 b)

-- The NEON intrinsics that the formatter uses.
pub record Neon : Type 0 where
  pub vshrq_n_u8 : Register → ℕ → Register
  pub vandq_u8 : Register → Register → Register
  pub vqtbl1q_u8 : Register → Register → Register
  pub vzipq_u8 : Register → Register → Register × Register
  pub shr_law : (a : Register) (n : ℕ) → vshrq_n_u8 a n ≡ map (λ x. x / 2 ^ n) a
  pub and_law : (a b : Register) → vandq_u8 a b ≡ bytewise bit_and a b
  pub tbl_law : (t i : Register) → vqtbl1q_u8 t i ≡ map (looked_up t) i
  pub zip_law :
      (a b : Register)
      → vzipq_u8 a b ≡ (interleaved (take 8 a) (take 8 b), interleaved (drop 8 a) (drop 8 b))

unfoldable pub hex32_ssse3 : Ssse3 → Uuid → List ℕ
hex32_ssse3 i b =
    let v = to_list b in
    let mask = replicate 16 0x0f in
    let hi = i.mm_and_si128 (i.mm_srli_epi16 v 4) mask in
    let lo = i.mm_and_si128 v mask in
    let hh = i.mm_shuffle_epi8 hexd hi in
    let lh = i.mm_shuffle_epi8 hexd lo in i.mm_unpacklo_epi8 hh lh ++ i.mm_unpackhi_epi8 hh lh

unfoldable pub hex32_neon : Neon → Uuid → List ℕ
hex32_neon i b =
    let v = to_list b in
    let mask = replicate 16 0x0f in
    let hi = i.vshrq_n_u8 v 4 in
    let lo = i.vandq_u8 v mask in
    let hh = i.vqtbl1q_u8 hexd hi in
    let lh = i.vqtbl1q_u8 hexd lo in let z = i.vzipq_u8 hh lh in z.0 ++ z.1

-- What the extension is built for; on x86, `fu_has_ssse3`.
pub data Target : Type 0 where
  x86 : Bool → Target
  aarch64 scalar : Target

unfoldable pub hex32 : Ssse3 → Neon → Target → Uuid → List ℕ
unfolding hex32_ssse3 hex32_neon
hex32 i n (x86 true) b = hex32_ssse3 i b
hex32 i n (x86 false) b = hex32_scalar b
hex32 i n aarch64 b = hex32_neon n b
hex32 i n scalar b = hex32_scalar b
