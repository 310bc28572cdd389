-- ===== src/Parse/Sound.antt =====
-- `fu_parse` accepts the canonical and the bare form, in any letter case, and nothing else.
use fast_uuid.Common.{
  ℕ, ◌+◌, ◌*◌, ◌/◌, ◌%◌, ◌<◌, ◌≡◌, refl, ap, ◌∙◌, true, Option, none, some, List, [], ◌∷◌, map, All,
  IsByte, get_or, get_or-IsByte, tabulate, tabulate-get_or, length, arith, bit_or,
}
use fast_uuid.Common.Bits.{bit_or_low}
use fast_uuid.Zend.{to_lower}
use fast_uuid.Uuid.{Uuid, of_list, to_list, IsBytes}
use fast_uuid.Hex.{lut, nib_lut, hex32_scalar, format36, hexd}
use fast_uuid.Hex.Digits.{nib_lut-digit, lut-hexd}
use fast_uuid.Parse.{hex_byte, join_byte, read_bytes, dashed_positions, bare_positions, has_dashes}

-- The byte `x` is what the digits `c` and `d` spell, in any letter case.
abbrev Spells : ℕ → ℕ → ℕ → Type 0
Spells x c d = (x < 256) × (lut (x * 2) ≡ to_lower c) × (lut (x * 2 + 1) ≡ to_lower d)

-- The bytes `xs` are what stands in `t` at the positions `ps`.
abbrev pub AllSpelt : List ℕ → List ℕ → List ℕ → Type 0
AllSpelt t [] [] = Unit {0}
AllSpelt t [] (x ∷ xs) = ⊥
AllSpelt t (p ∷ ps) [] = ⊥
AllSpelt t (p ∷ ps) (x ∷ xs) =
    (x < 256)
    × (lut (x * 2) ≡ to_lower (get_or t p 0))
    × (lut (x * 2 + 1) ≡ to_lower (get_or t (p + 1) 0))
    × AllSpelt t ps xs

two_digits : (v w : ℕ) → w < 16 → bit_or (v * 16) w ≡ v * 16 + w
two_digits v w h = bit_or_low 4 v w h

hex_byte-some :
    (a b : Option ℕ) (x : ℕ)
    → hex_byte a b ≡ some x
    → (v : ℕ) × (w : ℕ) × (a ≡ some v) × (b ≡ some w) × (x ≡ bit_or (v * 16) w % 256)
unfolding hex_byte
hex_byte-some none b x h = cc
hex_byte-some (some v) none x h = cc
hex_byte-some (some v) (some w) x h = (v, w, refl, refl, cc)

hex_byte-Spells :
    (c d x : ℕ) → c < 256 → d < 256 → hex_byte (nib_lut c) (nib_lut d) ≡ some x → Spells x c d
hex_byte-Spells c d x hc hd e =
    let (v, w, p, q, r) = hex_byte-some (nib_lut c) (nib_lut d) x e in
    let (hv, sv) = nib_lut-digit c v hc p in
    let (hw, sw) = nib_lut-digit d w hd q in
    let value : x ≡ v * 16 + w = omega (arith, two_digits v w hw) in
    let below : x < 256 = omega arith in
    let high : x / 16 ≡ v = omega arith in
    let low : x % 16 ≡ w = omega arith in
    let (sp, sq) = lut-hexd x below in
    (below, sp ∙ ap (λ t. get_or hexd t 0) high ∙ sv, sq ∙ ap (λ t. get_or hexd t 0) low ∙ sw)

join_byte-some :
    (a : Option ℕ) (r : Option (List ℕ)) (xs : List ℕ)
    → join_byte a r ≡ some xs
    → (y : ℕ) × (ys : List ℕ) × (a ≡ some y) × (r ≡ some ys) × (xs ≡ y ∷ ys)
unfolding join_byte
join_byte-some none r xs h = cc
join_byte-some (some y) none xs h = cc
join_byte-some (some y) (some ys) xs h = (y, ys, refl, refl, cc)

read_bytes-AllSpelt :
    (t ps xs : List ℕ)
    → All IsByte t
    → read_bytes t ps ≡ some xs
    → AllSpelt t ps xs × (length xs ≡ length ps)
unfolding read_bytes
read_bytes-AllSpelt t [] [] b h = (tt, refl)
read_bytes-AllSpelt t [] (x ∷ xs) b h = cc
read_bytes-AllSpelt t (p ∷ ps) [] b h = let (y, ys, e, f, g) = join_byte-some _ _ _ h in cc
read_bytes-AllSpelt t (p ∷ ps) (x ∷ xs) b h =
    let (y, ys, e, f, g) = join_byte-some _ _ _ h in
    let same_tail : ys ≡ xs = cc in
    let (s, n) = read_bytes-AllSpelt t ps xs b (f ∙ ap some same_tail) in
    let (u, v, w) =
      hex_byte-Spells (get_or t p 0) (get_or t (p + 1) 0) x (get_or-IsByte t p b)
        (get_or-IsByte t (p + 1) b) (cc) in
    ((u, v, w, s), omega arith)

-- The same for sixteen positions, with the bytes as an array.
pub sixteen :
    (t ps xs : List ℕ)
    → length ps ≡ 16
    → All IsByte t
    → read_bytes t ps ≡ some xs
    → AllSpelt t ps (to_list (of_list xs))
unfolding tabulate
sixteen t ps xs h b e =
    let (s, n) = read_bytes-AllSpelt t ps xs b e in rw (tabulate-get_or 16 xs 0 (n ∙ h)) at s

pub AllSpelt-IsBytes :
    (t ps : List ℕ) (u : Uuid) → length ps ≡ 16 → AllSpelt t ps (to_list u) → IsBytes u
unfolding tabulate
AllSpelt-IsBytes t ps u h s = all_bytes ps (to_list u) s
  where
    all_bytes : (qs xs : List ℕ) → AllSpelt t qs xs → All IsByte xs
    all_bytes [] [] r = tt
    all_bytes [] (x ∷ xs) r = absurd r
    all_bytes (q ∷ qs) [] r = absurd r
    all_bytes (q ∷ qs) (x ∷ xs) r = (r.0, all_bytes qs xs r.3)

dashes :
    (t : List ℕ)
    → has_dashes t ≡ true
    → (get_or t 8 0 ≡ b'-')
      × (get_or t 13 0 ≡ b'-')
      × (get_or t 18 0 ≡ b'-')
      × (get_or t 23 0 ≡ b'-')
dashes t d = ground (arith, d)

pub dashed_text :
    (t : List ℕ) (u : Uuid)
    → length t ≡ 36
    → has_dashes t ≡ true
    → AllSpelt t dashed_positions (to_list u)
    → map to_lower t ≡ format36 u
unfolding tabulate format36
dashed_text t u h d s =
    ap (map to_lower) (tabulate-get_or 36 t 0 h)
    ∙ simp (
      (dashes t d).0,
      (dashes t d).1,
      (dashes t d).2,
      (dashes t d).3,
      s.1,
      s.2,
      s.3.1,
      s.3.2,
      s.3.3.1,
      s.3.3.2,
      s.3.3.3.1,
      s.3.3.3.2,
      s.3.3.3.3.1,
      s.3.3.3.3.2,
      s.3.3.3.3.3.1,
      s.3.3.3.3.3.2,
      s.3.3.3.3.3.3.1,
      s.3.3.3.3.3.3.2,
      s.3.3.3.3.3.3.3.1,
      s.3.3.3.3.3.3.3.2,
      s.3.3.3.3.3.3.3.3.1,
      s.3.3.3.3.3.3.3.3.2,
      s.3.3.3.3.3.3.3.3.3.1,
      s.3.3.3.3.3.3.3.3.3.2,
      s.3.3.3.3.3.3.3.3.3.3.1,
      s.3.3.3.3.3.3.3.3.3.3.2,
      s.3.3.3.3.3.3.3.3.3.3.3.1,
      s.3.3.3.3.3.3.3.3.3.3.3.2,
      s.3.3.3.3.3.3.3.3.3.3.3.3.1,
      s.3.3.3.3.3.3.3.3.3.3.3.3.2,
      s.3.3.3.3.3.3.3.3.3.3.3.3.3.1,
      s.3.3.3.3.3.3.3.3.3.3.3.3.3.2,
      s.3.3.3.3.3.3.3.3.3.3.3.3.3.3.1,
      s.3.3.3.3.3.3.3.3.3.3.3.3.3.3.2,
      s.3.3.3.3.3.3.3.3.3.3.3.3.3.3.3.1,
      s.3.3.3.3.3.3.3.3.3.3.3.3.3.3.3.2,
    )

pub bare_text :
    (t : List ℕ) (u : Uuid)
    → length t ≡ 32
    → AllSpelt t (bare_positions 16 0) (to_list u)
    → map to_lower t ≡ hex32_scalar u
unfolding tabulate hex32_scalar
bare_text t u h s =
    ap (map to_lower) (tabulate-get_or 32 t 0 h)
    ∙ simp (
      s.1, s.2, s.3.1, s.3.2, s.3.3.1, s.3.3.2, s.3.3.3.1, s.3.3.3.2, s.3.3.3.3.1, s.3.3.3.3.2,
      s.3.3.3.3.3.1, s.3.3.3.3.3.2, s.3.3.3.3.3.3.1, s.3.3.3.3.3.3.2, s.3.3.3.3.3.3.3.1,
      s.3.3.3.3.3.3.3.2, s.3.3.3.3.3.3.3.3.1, s.3.3.3.3.3.3.3.3.2, s.3.3.3.3.3.3.3.3.3.1,
      s.3.3.3.3.3.3.3.3.3.2, s.3.3.3.3.3.3.3.3.3.3.1, s.3.3.3.3.3.3.3.3.3.3.2,
      s.3.3.3.3.3.3.3.3.3.3.3.1, s.3.3.3.3.3.3.3.3.3.3.3.2, s.3.3.3.3.3.3.3.3.3.3.3.3.1,
      s.3.3.3.3.3.3.3.3.3.3.3.3.2, s.3.3.3.3.3.3.3.3.3.3.3.3.3.1, s.3.3.3.3.3.3.3.3.3.3.3.3.3.2,
      s.3.3.3.3.3.3.3.3.3.3.3.3.3.3.1, s.3.3.3.3.3.3.3.3.3.3.3.3.3.3.2,
      s.3.3.3.3.3.3.3.3.3.3.3.3.3.3.3.1, s.3.3.3.3.3.3.3.3.3.3.3.3.3.3.3.2,
    )
