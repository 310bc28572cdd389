-- ===== src/Methods/LocalId.antt =====
-- Which local identifiers `fu_local_id_arg` accepts.
use fast_uuid.Common.{
  ℕ, zero, suc, ◌+◌, ◌-◌, ◌*◌, ◌%◌, ◌^◌, ◌<◌, ◌≤◌, ◌≡◌, ◌≢◌, ◌↔◌, ◌⊎◌, inl, inr, refl, ap, arith,
  true, false, some, ok, List, [], ◌∷◌, All, ltb, Bool-cases, not, ◌==◌, ◌&&◌, length, get_or,
}
use fast_uuid.Common.Int.{pos, negsuc, pos_part}
use fast_uuid.Args.{Process, StrOrLong, null, str, long, local_id_arg, id_of_number, all_digits}
use fast_uuid.Decimal.Digits.{IsDigit, spelled}
use fast_uuid.Decimal.Print.{IsDecimal}

-- What an argument names: without one, the process's user in the domain 0 and its group in the domain
-- 1; an integer itself; and a decimal text its number.
abbrev pub NamesId : Process → ℕ → StrOrLong → ℕ → Type 0
NamesId p domain null n =
    ((domain ≡ 0) × (n ≡ p.getuid % 2 ^ 32)) ⊎ ((domain ≡ 1) × (n ≡ p.getgid % 2 ^ 32))
NamesId p domain (long z) n = (z ≡ pos n) × (n < 2 ^ 32)
NamesId p domain (str s) n = IsDecimal s × (spelled s 0 ≡ n) × (n < 2 ^ 32)

-- `b` times ten, `k` times.
abbrev shifted : ℕ → ℕ → ℕ
shifted zero b = b
shifted (suc k) b = shifted k (b * 10)

spelled_below :
    (k : ℕ) (cs : List ℕ) (n b : ℕ)
    → All IsDigit cs
    → length cs ≤ k
    → n < b
    → spelled cs n < shifted k b
spelled_below zero [] n b d l h = h
spelled_below zero (c ∷ cs) n b d l h = absurd (omega arith)
spelled_below (suc k) [] n b d l h = spelled_below k [] n (b * 10) tt (omega arith) (omega arith)
spelled_below (suc k) (c ∷ cs) n b d l h =
    spelled_below k cs (n * 10 + (c - b'0')) (b * 10) d.1 (omega arith) (omega (arith, h, d.0))

spelled_above : (k : ℕ) (cs : List ℕ) (n b : ℕ) → k ≤ length cs → b ≤ n → shifted k b ≤ spelled cs n
spelled_above zero [] n b l h = h
spelled_above zero (c ∷ cs) n b l h =
    spelled_above zero cs (n * 10 + (c - b'0')) b (omega arith) (omega (arith, h))
spelled_above (suc k) [] n b l h = absurd (omega arith)
spelled_above (suc k) (c ∷ cs) n b l h =
    spelled_above k cs (n * 10 + (c - b'0')) (b * 10) (omega arith) (omega (arith, h))

all_digits_sound : (cs : List ℕ) → all_digits cs ≡ true → All IsDigit cs
unfolding all_digits
all_digits_sound [] h = tt
all_digits_sound (c ∷ cs) h = (ground (arith, h), all_digits_sound cs (ground (arith, h)))

all_digits_complete : (cs : List ℕ) → All IsDigit cs → all_digits cs ≡ true
unfolding all_digits
all_digits_complete [] h = refl
all_digits_complete (c ∷ cs) h =
    let low = h.0.0 in let high = h.0.1 in ground (arith, all_digits_complete cs h.1)

-- A decimal text of more than ten digits is too large.
short_text : (s : List ℕ) → IsDecimal s → spelled s 0 < 2 ^ 32 → length s ≤ 10
short_text [] d h = omega arith
short_text (c ∷ cs) d h = elim (Bool-cases (ltb 10 (suc (length cs)))) [
  | inl e ↦
      let long_text : 10 ≤ length cs = ground (arith, e) in
      let digit = d.digits in
      let first : 1 ≤ 0 * 10 + (c - b'0') = ground (arith, d.canonical, digit.0, long_text) in
      absurd (omega (arith, h, spelled_above 10 cs (0 * 10 + (c - b'0')) 1 long_text first))
  | inr e ↦ ground (arith, e)
]

canonical_start :
    (s : List ℕ)
    → (ltb 1 (length s) && get_or s 0 0 == b'0') ≡ false
    → (get_or s 0 0 ≢ b'0') ⊎ (length s ≤ 1)
canonical_start s g = elim (Bool-cases (ltb 1 (length s))) [
  | inl e ↦ inl (ground (arith, g, e))
  | inr e ↦ inr (ground (arith, e))
]

module _ (p : Process) where
  id_of_text_sound :
      (s : List ℕ) (n : ℕ)
      → All IsDigit s
      → 0 < length s
      → length s ≤ 10
      → id_of_number (length s) (p.strtoull s) ≡ ok n
      → (spelled s 0 ≡ n) × (n < 2 ^ 32)
  unfolding id_of_number
  id_of_text_sound s n d l k e =
      let small : spelled s 0 < 10000000000 = spelled_below 10 s 0 1 d k (omega arith) in
      let read : p.strtoull s ≡ some (spelled s 0, length s) =
        p.strtoull_law s d l (omega (arith, small)) in
      let e' = rw read at e in
      elim (Bool-cases (ltb 0xffffffff (spelled s 0))) [
        | inl big ↦ absurd (ground (arith, big, e'))
        | inr fits ↦ ground (arith, fits, e')
      ]

  id_of_text_complete :
      (s : List ℕ) (n : ℕ)
      → All IsDigit s
      → 0 < length s
      → spelled s 0 ≡ n
      → n < 2 ^ 32
      → id_of_number (length s) (p.strtoull s) ≡ ok n
  unfolding id_of_number
  id_of_text_complete s n d l e h =
      let read : p.strtoull s ≡ some (spelled s 0, length s) =
        p.strtoull_law s d l (omega (arith, e, h)) in
      rw (read, e) (ground (arith, h))

  local_id_arg_text :
      (domain : ℕ) (s : List ℕ) (n : ℕ)
      → local_id_arg p domain (str s) ≡ ok n
      → NamesId p domain (str s) n
  unfolding local_id_arg
  local_id_arg_text domain s n e = elim (Bool-cases (length s == 0)) [
    | inl f ↦ absurd (ground (arith, e, f))
    | inr f ↦ elim (Bool-cases (ltb 1 (length s) && get_or s 0 0 == b'0')) [
      | inl g ↦ absurd (ground (arith, e, f, g))
      | inr g ↦ elim (Bool-cases (ltb 10 (length s))) [
        | inl h ↦ absurd (ground (arith, e, f, g, h))
        | inr h ↦ elim (Bool-cases (not (all_digits s))) [
          | inl i ↦ absurd (ground (arith, e, f, g, h, i))
          | inr i ↦
              let d = all_digits_sound s (ground (arith, i)) in
              let (v, w) =
                id_of_text_sound s n d (ground (arith, f)) (ground (arith, h))
                  (rw (f, g, h, i) at e) in
              (
                record {
                  digits = d;
                  nonempty = ground (arith, f);
                  short = ground (arith, h);
                  canonical = canonical_start s g;
                },
                v,
                w,
              )
        ]
      ]
    ]
  ]

  local_id_arg_names :
      (domain : ℕ) (s : List ℕ) (n : ℕ)
      → NamesId p domain (str s) n
      → local_id_arg p domain (str s) ≡ ok n
  unfolding local_id_arg
  local_id_arg_names domain s n (d, e, h) =
      let f : (length s == 0) ≡ false = ground (arith, d.nonempty) in
      let g : (ltb 1 (length s) && get_or s 0 0 == b'0') ≡ false = ground (arith, d.canonical) in
      let k = short_text s d (omega (arith, e, h)) in
      let i : ltb 10 (length s) ≡ false = ground (arith, k) in
      rw (f, g, i, all_digits_complete s d.digits) (id_of_text_complete s n d.digits d.nonempty e h)

  null_sound : (domain n : ℕ) → local_id_arg p domain null ≡ ok n → NamesId p domain null n
  unfolding local_id_arg
  null_sound domain n e = elim (Bool-cases (domain == 1)) [
    | inl f ↦ inr (ground (arith, e, f))
    | inr f ↦ elim (Bool-cases (domain == 0)) [
      | inl g ↦ inl (ground (arith, e, f, g))
      | inr g ↦ absurd (ground (arith, e, f, g))
    ]
  ]

  null_complete : (domain n : ℕ) → NamesId p domain null n → local_id_arg p domain null ≡ ok n
  unfolding local_id_arg
  null_complete domain n (inl (d, e)) = rw (d, e) refl
  null_complete domain n (inr (d, e)) = rw (d, e) refl

  long_sound :
      (domain m n : ℕ)
      → local_id_arg p domain (long (pos m)) ≡ ok n
      → NamesId p domain (long (pos m)) n
  unfolding local_id_arg
  long_sound domain m n e = elim (Bool-cases (ltb 0xffffffff m)) [
    | inl f ↦ absurd (ground (arith, e, f))
    | inr f ↦ let same : m ≡ n = ground (arith, e, f) in (ap pos same, ground (arith, same, f))
  ]

  long_complete :
      (domain m n : ℕ)
      → NamesId p domain (long (pos m)) n
      → local_id_arg p domain (long (pos m)) ≡ ok n
  unfolding local_id_arg
  long_complete domain m n (e, h) = let same : m ≡ n = ap pos_part e in ground (arith, same, h)

  -- A local identifier is accepted as the number `n` exactly when the argument names `n`: a decimal
  -- text without a leading zero or an integer, which is below 2^32, or, where it is left out, the
  -- process's user in the domain 0 and its group in the domain 1, as 32 bits.
  pub local_id_arg_iff :
      (domain : ℕ) (id : StrOrLong) (n : ℕ)
      → (local_id_arg p domain id ≡ ok n) ↔ NamesId p domain id n
  unfolding local_id_arg
  local_id_arg_iff domain null n = (null_sound domain n, null_complete domain n)
  local_id_arg_iff domain (long (negsuc m)) n =
      ((λ e. absurd (ground (arith, e))), (λ (e, h). absurd (ground (arith, e))))
  local_id_arg_iff domain (long (pos m)) n = (long_sound domain m n, long_complete domain m n)
  local_id_arg_iff domain (str s) n = (local_id_arg_text domain s n, local_id_arg_names domain s n)
