-- ===== src/Parse/Wrappers.antt =====
-- The wrappers around the digits: "urn:uuid:" in any letter case, and braces.
use fast_uuid.Common.{
  ℕ, zero, suc, ◌+◌, ◌-◌, ◌≤◌, ◌≡◌, ◌≢◌, refl, ap, ◌⊎◌, inl, inr, List, [], ◌∷◌, ◌++◌, map, take,
  drop, length, length-append, length-map, get_or, get_or-append, take-append, drop-append,
  take-append-drop, take-snoc, Bool-cases, arith, true, ◌∙◌, sym,
}
use fast_uuid.Common.Int.{ℤ, pos, negsuc}
use fast_uuid.Zend.{Zend, to_lower}
use fast_uuid.Parse.{urn, has_urn, has_braces, strip_urn, strip_braces, strip, is_zero}
use fast_uuid.Parse.RoundTrip.{strip-eq_self}

pub data Wrapper : Type 0 where
  prefix : (p : List ℕ) → map to_lower p ≡ urn → Wrapper
  braces : Wrapper

abbrev pub wrap : Wrapper → List ℕ → List ℕ
wrap (prefix p h) t = p ++ t
wrap braces t = b'{' ∷ (t ++ b'}' ∷ [])

abbrev pub wrap_all : List Wrapper → List ℕ → List ℕ
wrap_all [] t = t
wrap_all (w ∷ ws) t = wrap w (wrap_all ws t)

-- The text does not begin like a wrapper.
abbrev pub IsPlain : List ℕ → Type 0
IsPlain t = (get_or t 0 0 ≢ b'u') × (get_or t 0 0 ≢ b'U') × (get_or t 0 0 ≢ b'{')

length_wrapped : (t : List ℕ) → length (wrap braces t) ≡ length t + 2
length_wrapped t = omega (arith, length-append t (b'}' ∷ []))

-- Braces and a prefix come off in one test each.
strip_braces_lem : (t : List ℕ) → strip_braces (wrap braces t) ≡ t
unfolding strip_braces
strip_braces_lem t = ground (
  arith,
  length_wrapped t,
  get_or-append (length t) t (b'}' ∷ []) 0,
  take-append (length t) t (b'}' ∷ []),
)

is_zero_pos : (z : ℤ) → z ≡ pos 0 → is_zero z ≡ true
is_zero_pos z h = rw h

length_prefix : (p : List ℕ) → map to_lower p ≡ urn → length p ≡ 9
length_prefix p h = omega (arith, length-map p to_lower, ap length h)

strip_urn_lem : (z : Zend) (p t : List ℕ) → map to_lower p ≡ urn → strip_urn z (p ++ t) ≡ t
unfolding strip_urn
strip_urn_lem z [] t h = cc
strip_urn_lem z (x ∷ p) t h = ground (
  arith,
  length_prefix (x ∷ p) h,
  take-append 9 (x ∷ p) t,
  drop-append 9 (x ∷ p) t,
  length-append (x ∷ p) t,
  z.strncasecmp_zero (x ∷ (p ++ t)) urn 9,
  h,
)

-- The head of a text, where it does not look like a wrapper, stops the test.
strip_braces_skip : (s : List ℕ) → get_or s 0 0 ≢ b'{' → strip_braces s ≡ s
unfolding strip_braces
strip_braces_skip s h = ground arith

strip_urn_skip : (z : Zend) (s : List ℕ) → get_or s 0 0 ≡ b'{' → strip_urn z s ≡ s
unfolding strip_urn
strip_urn_skip z s h = ground arith

prefix_head : (p t : List ℕ) → map to_lower p ≡ urn → get_or (p ++ t) 0 0 ≢ b'{'
prefix_head [] t h = λ e. cc
prefix_head (x ∷ p) t h = ground (arith, h)

strip-wrap_one :
    (n : ℕ) (z : Zend) (w : Wrapper) (t : List ℕ) → IsPlain t → strip (suc n) z (wrap w t) ≡ t
unfolding strip
strip-wrap_one n z (prefix p h) t f =
    rw (strip_urn_lem z p t h, strip_braces_skip t f.2) (strip-eq_self n z t f.0 f.1 f.2)
strip-wrap_one n z braces t f =
    rw (strip_urn_skip z (wrap braces t) refl, strip_braces_lem t) (strip-eq_self n z t f.0 f.1 f.2)

strip-wrap_pair :
    (z : Zend) (v w : Wrapper) (t : List ℕ) → IsPlain t → strip 2 z (wrap v (wrap w t)) ≡ t
unfolding strip
strip-wrap_pair z (prefix p h) (prefix q k) t f =
    rw (strip_urn_lem z p (q ++ t) h, strip_braces_skip (q ++ t) (prefix_head q t k))
      (strip-wrap_one 0 z (prefix q k) t f)
strip-wrap_pair z (prefix p h) braces t f =
    rw (strip_urn_lem z p (wrap braces t) h, strip_braces_lem t) (strip-eq_self 1 z t f.0 f.1 f.2)
strip-wrap_pair z braces w t f =
    rw (strip_urn_skip z (wrap braces (wrap w t)) refl, strip_braces_lem (wrap w t))
      (strip-wrap_one 0 z w t f)

-- The loop takes up to two wrappers off, in any order.
pub strip-wrap_all :
    (z : Zend) (ws : List Wrapper) (t : List ℕ)
    → length ws ≤ 2
    → IsPlain t
    → strip 2 z (wrap_all ws t) ≡ t
strip-wrap_all z [] t h f = strip-eq_self 2 z t f.0 f.1 f.2
strip-wrap_all z (w ∷ []) t h f = strip-wrap_one 1 z w t f
strip-wrap_all z (v ∷ w ∷ []) t h f = strip-wrap_pair z v w t f
strip-wrap_all z (v ∷ w ∷ x ∷ ws) t h f = absurd (omega arith)

-- A text in braces is its inside, wrapped.
has_braces-wrap :
    (s : List ℕ) → has_braces s ≡ true → s ≡ wrap braces (take (length s - 2) (drop 1 s))
unfolding has_braces
has_braces-wrap [] h = cc
has_braces-wrap (x ∷ []) h = ground arith
has_braces-wrap (x ∷ y ∷ s) h = ground (arith, h, take-snoc (length s) (y ∷ s) 0 refl)

is_zero-pos : (z : ℤ) → is_zero z ≡ true → z ≡ pos 0
is_zero-pos (pos zero) h = refl
is_zero-pos (pos (suc n)) h = cc
is_zero-pos (negsuc n) h = cc

has_urn-prefix : (z : Zend) (s : List ℕ) → has_urn z s ≡ true → map to_lower (take 9 s) ≡ urn
unfolding has_urn
has_urn-prefix z s h =
    ground (arith, h, is_zero-pos (z.strncasecmp s urn 9), z.strncasecmp_zero s urn 9)

-- One test takes at most one wrapper off.
strip_urn-wrap :
    (z : Zend) (s : List ℕ) → (strip_urn z s ≡ s) ⊎ ((w : Wrapper) × (s ≡ wrap w (strip_urn z s)))
strip_urn-wrap z s = elim (Bool-cases (has_urn z s)) [
  | inl t ↦ inr (
    prefix (take 9 s) (has_urn-prefix z s t),
    unfold strip_urn in rw t (sym (take-append-drop 9 s)),
  )
  | inr f ↦ inl (unfold strip_urn in rw f)
]

strip_braces-wrap :
    (s : List ℕ) → (strip_braces s ≡ s) ⊎ ((w : Wrapper) × (s ≡ wrap w (strip_braces s)))
strip_braces-wrap s = elim (Bool-cases (has_braces s)) [
  | inl t ↦ inr (braces, unfold strip_braces in rw t (has_braces-wrap s t))
  | inr f ↦ inl (unfold strip_braces in rw f)
]

-- What one pass leaves is the text without at most two wrappers.
pass-wrap :
    (z : Zend) (s : List ℕ)
    → (ws : List Wrapper) × (s ≡ wrap_all ws (strip_braces (strip_urn z s))) × (length ws ≤ 2)
pass-wrap z s = elim (strip_urn-wrap z s) [
  | inl a ↦ elim (strip_braces-wrap (strip_urn z s)) [
    | inl b ↦ ([], sym (b ∙ a), omega arith)
    | inr (w, b) ↦ (w ∷ [], sym a ∙ b, omega arith)
  ]
  | inr (v, a) ↦ elim (strip_braces-wrap (strip_urn z s)) [
    | inl b ↦ (v ∷ [], a ∙ ap (wrap v) (sym b), omega arith)
    | inr (w, b) ↦ (v ∷ w ∷ [], a ∙ ap (wrap v) b, omega arith)
  ]
]

wrap_all-append :
    (vs ws : List Wrapper) (t : List ℕ) → wrap_all (vs ++ ws) t ≡ wrap_all vs (wrap_all ws t)
wrap_all-append [] ws t = refl
wrap_all-append (v ∷ vs) ws t = ap (wrap v) (wrap_all-append vs ws t)

-- The loop takes nothing but wrappers off.
pub strip-wrap :
    (n : ℕ) (z : Zend) (s : List ℕ)
    → (ws : List Wrapper) × (s ≡ wrap_all ws (strip n z s)) × (length ws ≤ n + n)
unfolding strip
strip-wrap zero z s = ([], refl, omega arith)
strip-wrap (suc n) z s =
    let (vs, p, h) = pass-wrap z s in
    let (ws, q, k) = strip-wrap n z (strip_braces (strip_urn z s)) in
    (
      vs ++ ws,
      p ∙ ap (wrap_all vs) q ∙ sym (wrap_all-append vs ws _),
      omega (arith, length-append vs ws),
    )
