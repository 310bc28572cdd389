-- ===== src/Parse/Accept.antt =====
-- Exactly which texts `fu_parse` accepts, and with which bytes.
use fast_uuid.Common.{
  ℕ, ◌+◌, ◌*◌, ◌≤◌, ◌≡◌, refl, ap, ◌∙◌, sym, true, Option, none, some, List, [], ◌∷◌, ◌++◌, map,
  All, IsByte, get_or, get_or-map, get_or-IsByte, length, length-map, arith, ◌==◌, ◌⊎◌, inl, inr,
  Bool-cases,
}
use fast_uuid.Zend.{Zend, to_lower}
use fast_uuid.Uuid.{Uuid, of_list, IsBytes}
use fast_uuid.Hex.{lut, hex32_scalar, format36}
use fast_uuid.Hex.Digits.{nib_lut-to_lower, lut-ne_open}
use fast_uuid.Parse.{
  strip, read_bytes, parse_digits, parse, dashed_positions, bare_positions, has_dashes,
}
use fast_uuid.Parse.RoundTrip.{
  parse_digits-format36, parse_digits-hex32_scalar, format36_head, hex32_scalar_head,
}
use fast_uuid.Parse.Wrappers.{
  Wrapper, prefix, braces, wrap_all, IsPlain, strip-wrap_all, strip-wrap,
}
use fast_uuid.Parse.Sound.{sixteen, AllSpelt-IsBytes, dashed_text, bare_text}
use mathlib.Core.Option
use mathlib.Core.Path.{subst}

-- The text `t` spells the bytes `u`, in any letter case, with dashes or without.
abbrev pub Spelling : List ℕ → Uuid → Type 0
Spelling t u = (map to_lower t ≡ format36 u) ⊎ (map to_lower t ≡ hex32_scalar u)

read_bytes-to_lower :
    (t ps : List ℕ) → All IsByte t → read_bytes (map to_lower t) ps ≡ read_bytes t ps
unfolding read_bytes
read_bytes-to_lower t [] b = refl
read_bytes-to_lower t (p ∷ ps) b = simp (
  get_or-map to_lower t p refl,
  get_or-map to_lower t (p + 1) refl,
  nib_lut-to_lower (get_or t p 0) (get_or-IsByte t p b),
  nib_lut-to_lower (get_or t (p + 1) 0) (get_or-IsByte t (p + 1) b),
  read_bytes-to_lower t ps b,
)

dash-to_lower : (c : ℕ) → (to_lower c == b'-') ≡ (c == b'-')
dash-to_lower c = ground arith

has_dashes-to_lower : (t : List ℕ) → has_dashes (map to_lower t) ≡ has_dashes t
has_dashes-to_lower t = simp (
  get_or-map to_lower t 8 refl,
  get_or-map to_lower t 13 refl,
  get_or-map to_lower t 18 refl,
  get_or-map to_lower t 23 refl,
  dash-to_lower (get_or t 8 0),
  dash-to_lower (get_or t 13 0),
  dash-to_lower (get_or t 18 0),
  dash-to_lower (get_or t 23 0),
)

-- Letter case does not matter.
parse_digits-to_lower : (t : List ℕ) → All IsByte t → parse_digits (map to_lower t) ≡ parse_digits t
unfolding parse_digits
parse_digits-to_lower t b = rw (
  length-map t to_lower,
  has_dashes-to_lower t,
  read_bytes-to_lower t dashed_positions b,
  read_bytes-to_lower t (bare_positions 16 0) b,
)

map-some :
    (o : Option (List ℕ)) (u : Uuid)
    → Option.map of_list o ≡ some u
    → (xs : List ℕ) × (o ≡ some xs) × (of_list xs ≡ u)
map-some none u h = cc
map-some (some xs) u h = (xs, refl, ap (λ o. Option.get_or o (of_list xs)) h)

-- The bytes that were read, in one of the two forms.
accepted :
    (t xs : List ℕ) (u : Uuid)
    → of_list xs ≡ u
    → IsBytes (of_list xs)
    → Spelling t (of_list xs)
    → IsBytes u × Spelling t u
accepted t xs u f b s = subst (λ v. IsBytes v × Spelling t v) f (b, s)

parse_digits-dashed :
    (t : List ℕ) (u : Uuid)
    → All IsByte t
    → length t ≡ 36
    → has_dashes t ≡ true
    → Option.map of_list (read_bytes t dashed_positions) ≡ some u
    → IsBytes u × Spelling t u
parse_digits-dashed t u b n d h =
    let (xs, e, f) = map-some (read_bytes t dashed_positions) u h in
    let spelt = sixteen t dashed_positions xs refl b e in
    accepted t xs u f (AllSpelt-IsBytes t dashed_positions (of_list xs) refl spelt)
      (inl (dashed_text t (of_list xs) n d spelt))

parse_digits-bare :
    (t : List ℕ) (u : Uuid)
    → All IsByte t
    → length t ≡ 32
    → Option.map of_list (read_bytes t (bare_positions 16 0)) ≡ some u
    → IsBytes u × Spelling t u
parse_digits-bare t u b n h =
    let (xs, e, f) = map-some (read_bytes t (bare_positions 16 0)) u h in
    let spelt = sixteen t (bare_positions 16 0) xs refl b e in
    accepted t xs u f (AllSpelt-IsBytes t (bare_positions 16 0) (of_list xs) refl spelt)
      (inr (bare_text t (of_list xs) n spelt))

-- Without wrappers: what is accepted is one of the two forms.
parse_digits_sound :
    (t : List ℕ) (u : Uuid) → All IsByte t → parse_digits t ≡ some u → IsBytes u × Spelling t u
unfolding parse_digits
parse_digits_sound t u b h = elim (Bool-cases (length t == 36)) [
  | inl n ↦ elim (Bool-cases (has_dashes t)) [
    | inl d ↦ parse_digits-dashed t u b (ground arith) d (rw (n, d) at h)
    | inr d ↦ absurd (ground (arith, h, n, d))
  ]
  | inr n ↦ elim (Bool-cases (length t == 32)) [
    | inl m ↦ parse_digits-bare t u b (ground arith) (rw (n, m) at h)
    | inr m ↦ absurd (ground (arith, h, n, m))
  ]
]

parse_digits_complete :
    (t : List ℕ) (u : Uuid) → All IsByte t → IsBytes u → Spelling t u → parse_digits t ≡ some u
parse_digits_complete t u b h (inl e) =
    sym (parse_digits-to_lower t b) ∙ ap parse_digits e ∙ parse_digits-format36 u h
parse_digits_complete t u b h (inr e) =
    sym (parse_digits-to_lower t b) ∙ ap parse_digits e ∙ parse_digits-hex32_scalar u h

Spelling-head : (t : List ℕ) (u : Uuid) → Spelling t u → to_lower (get_or t 0 0) ≡ lut (u.b0 * 2)
Spelling-head t u (inl e) =
    sym (get_or-map to_lower t 0 refl) ∙ ap (λ s. get_or s 0 0) e ∙ format36_head u
Spelling-head t u (inr e) =
    sym (get_or-map to_lower t 0 refl) ∙ ap (λ s. get_or s 0 0) e ∙ hex32_scalar_head u

Spelling-IsPlain : (t : List ℕ) (u : Uuid) → IsBytes u → Spelling t u → IsPlain t
Spelling-IsPlain t u h s = ground (arith, Spelling-head t u s, lut-ne_open u.b0 h.0)

All-append_right : (xs ys : List ℕ) → All IsByte (xs ++ ys) → All IsByte ys
All-append_right [] ys h = h
All-append_right (x ∷ xs) ys h = All-append_right xs ys h.1

All-append_left : (xs ys : List ℕ) → All IsByte (xs ++ ys) → All IsByte xs
All-append_left [] ys h = tt
All-append_left (x ∷ xs) ys h = (h.0, All-append_left xs ys h.1)

All-wrap_all : (ws : List Wrapper) (t : List ℕ) → All IsByte (wrap_all ws t) → All IsByte t
All-wrap_all [] t h = h
All-wrap_all (prefix p e ∷ ws) t h = All-wrap_all ws t (All-append_right p (wrap_all ws t) h)
All-wrap_all (braces ∷ ws) t h = All-wrap_all ws t (All-append_left (wrap_all ws t) _ h.1)

-- Sixteen bytes, spelled in the canonical form or as 32 digits, in any letter case, and inside up
-- to two wrappers, are what the text is parsed to.
pub parse-wrap_all :
    (z : Zend) (ws : List Wrapper) (t : List ℕ) (u : Uuid)
    → length ws ≤ 2
    → All IsByte t
    → IsBytes u
    → Spelling t u
    → parse z (wrap_all ws t) ≡ some u
unfolding parse
parse-wrap_all z ws t u n b h s =
    rw (strip-wrap_all z ws t n (Spelling-IsPlain t u h s)) (parse_digits_complete t u b h s)

-- A text of bytes that is parsed is a spelling of the result, in the canonical form or as 32 digits
-- in any letter case, inside at most four wrappers; and the result is sixteen bytes.
pub parse-Spelling :
    (z : Zend) (s : List ℕ) (u : Uuid)
    → All IsByte s
    → parse z s ≡ some u
    → (ws : List Wrapper) × (t : List ℕ) × (s ≡ wrap_all ws t)
      × (length ws ≤ 4)
      × IsBytes u
      × Spelling t u
unfolding parse
parse-Spelling z s u b e =
    let (ws, p, n) = strip-wrap 2 z s in
    let (h, q) =
      parse_digits_sound (strip 2 z s) u (All-wrap_all ws (strip 2 z s) (subst (All IsByte) p b))
        e in
    (ws, strip 2 z s, p, n, h, q)
