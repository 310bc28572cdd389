-- ===== src/DateTime/Micros.antt =====
-- The microseconds of a date are below a million, whichever way they are read.
use fast_uuid.Common.{
  ℕ, zero, suc, ◌+◌, ◌-◌, ◌*◌, ◌<◌, ◌≡◌, refl, arith, not, ◌||◌, ◌==◌, Option, none, some, List, [],
  ◌∷◌, length, ltb, Bool-cases, inl, inr, Result, ok, err, replicate,
}
use fast_uuid.Common.Int.{ℤ}
use fast_uuid.DateTime.{
  Date, Called, failed, threw, returned, Returned, integer, text, neither, read_micros, micros_or,
  micros_of, secs_of, paired, by_methods, by_cache, dt_secs_micros,
}

-- Below `n` for as many digits as are left.
abbrev Below : ℕ → Option ℕ → Type 0
Below n none = Unit {0}
Below n (some m) = m < n

grown : List ℕ → ℕ → ℕ
grown [] k = k
grown (c ∷ cs) k = grown cs (k * 10)

grown-length : (cs : List ℕ) (n k : ℕ) → length cs ≡ n → grown cs k ≡ grown (replicate n 0) k
unfolding grown
grown-length [] zero k h = refl
grown-length [] (suc n) k h = absurd (omega arith)
grown-length (c ∷ cs) zero k h = absurd (omega arith)
grown-length (c ∷ cs) (suc n) k h = grown-length cs n (k * 10) (omega arith)

read_micros-Below : (cs : List ℕ) (m k n : ℕ) → m < k → grown cs k ≡ n → Below n (read_micros cs m)
unfolding read_micros grown
read_micros-Below [] m k n h e = omega (arith, h, e)
read_micros-Below (c ∷ cs) m k n h e = elim (Bool-cases (ltb c b'0' || ltb b'9' c)) [
  | inl bad ↦ rw bad tt
  | inr good ↦
      rw good (read_micros-Below cs (m * 10 + (c - b'0')) (k * 10) n (ground (arith, good, h)) e)
]

abbrev pub HasMicros : Result (ℤ × ℕ) → Type 0
HasMicros (ok (secs, micros)) = micros < 1000000
HasMicros (err e) = Unit {0}

abbrev MicrosBelow : Result ℕ → Type 0
MicrosBelow (ok m) = m < 1000000
MicrosBelow (err e) = Unit {0}

micros_or-MicrosBelow : (o : Option ℕ) → Below 1000000 o → MicrosBelow (micros_or o)
micros_or-MicrosBelow none h = tt
micros_or-MicrosBelow (some m) h = h

micros_of-MicrosBelow : (r : Called Returned) → MicrosBelow (micros_of r)
unfolding micros_of grown
micros_of-MicrosBelow failed = tt
micros_of-MicrosBelow (threw e) = tt
micros_of-MicrosBelow (returned (integer n)) = tt
micros_of-MicrosBelow (returned neither) = tt
micros_of-MicrosBelow (returned (text s)) = elim (Bool-cases (not (length s == 6))) [
  | inl e ↦ rw e tt
  | inr e ↦ rw e (
      micros_or-MicrosBelow (read_micros s 0)
        (read_micros-Below s 0 1 1000000 (omega arith) (grown-length s 6 1 (ground (arith, e)))))
]

paired-HasMicros : (r : Result ℤ) (m : Result ℕ) → MicrosBelow m → HasMicros (paired r m)
paired-HasMicros (err e) m h = tt
paired-HasMicros (ok secs) (err e) h = tt
paired-HasMicros (ok secs) (ok m) h = h

by_methods-HasMicros : (d : Date) → HasMicros (by_methods d)
unfolding by_methods
by_methods-HasMicros d =
    paired-HasMicros (secs_of d.get_timestamp) (micros_of d.format_u)
      (micros_of-MicrosBelow d.format_u)

-- The cached time of a date, where there is one, is within a second.
abbrev pub CachedWithin : Option (ℤ × ℕ) → Type 0
CachedWithin none = Unit {0}
CachedWithin (some (secs, micros)) = micros < 1000000

by_cache-HasMicros : (d : Date) (o : Option (ℤ × ℕ)) → CachedWithin o → HasMicros (by_cache d o)
unfolding by_cache
by_cache-HasMicros d none h = by_methods-HasMicros d
by_cache-HasMicros d (some (secs, micros)) h = h

-- Where the date extension keeps the microseconds of its cached time below a million, those that are
-- read from a date are too, also from a class that overrides format("u").
pub dt_secs_micros-HasMicros : (d : Date) → CachedWithin d.cached → HasMicros (dt_secs_micros d)
unfolding dt_secs_micros
dt_secs_micros-HasMicros d h = elim (Bool-cases d.is_builtin) [
  | inl e ↦ simp e (by_cache-HasMicros d d.cached h)
  | inr e ↦ simp e (by_methods-HasMicros d)
]
