-- ===== src/Clock/Marks.antt =====
-- The marks `greg_last` and `v2_last` of the clock-based versions: every timestamp that is handed out
-- lies above the one before it.
use fast_uuid.Common.{
  ℕ, ◌+◌, ◌-◌, ◌*◌, ◌/◌, ◌%◌, ◌^◌, ◌<◌, ◌≡◌, ◌∙◌, refl, arith, Option, none, some, ltb, leb,
  Bool-cases, inl, inr, ◌==◌, bit_and, bit_or, Result, ok, err,
}
use fast_uuid.Common.Int.{ℤ, pos, negsuc}
use fast_uuid.Common.Bits.{bit_or_add, mask_32}
use fast_uuid.State.{State, Os, continue, continue_rule}
use fast_uuid.Layout.{greg_unix_epoch, shl64, shr}
use fast_uuid.Random.Valid.{IsValid}
use fast_uuid.Clock.{
  nanos, unix_nanos, greg_now, advance_greg, greg_monotonic, advance_v2, v2_monotonic,
}

-- What a reading of the clock leaves: a count in 64 bits.
NanosBelow : Result ℕ → Type 0
NanosBelow (ok ns) = ns < 2 ^ 64
NanosBelow (err e) = Unit {0}

nanos-NanosBelow :
    (a : Option (ℤ × ℕ))
    → ((sec : ℤ) (nsec : ℕ) → a ≡ some (sec, nsec) → nsec < 1000000000)
    → NanosBelow (nanos a)
unfolding nanos NanosBelow
nanos-NanosBelow none h = tt
nanos-NanosBelow (some (negsuc sec, nsec)) h = tt
nanos-NanosBelow (some (pos sec, nsec)) h =
    let k = h (pos sec) nsec refl in
    elim (Bool-cases (ltb ((2 ^ 64 - 1 - nsec) / 1000000000) sec)) [
      | inl e ↦ rw e tt
      | inr e ↦ rw e (ground (arith, e, k))
    ]

-- The timestamp of the clock fits 60 bits, and the marks are as before.
abbrev pub ReadTicks : State → Result ℕ × State → Type 0
ReadTicks s (ok g, t) =
    (g < 2 ^ 60) × IsValid t × (t.greg_last ≡ s.greg_last) × (t.v2_last ≡ s.v2_last)
ReadTicks s (err e, t) = IsValid t × (t.greg_last ≡ s.greg_last) × (t.v2_last ≡ s.v2_last)

read_ticks :
    (s t : State) (r : Result ℕ)
    → NanosBelow r
    → IsValid t
    → (t.greg_last ≡ s.greg_last)
    → (t.v2_last ≡ s.v2_last)
    → ReadTicks s (continue (r, t) (λ ns t. (ok (ns / 100 + greg_unix_epoch), t)))
unfolding NanosBelow
read_ticks s t (ok ns) h v a b = (omega arith, v, a, b)
read_ticks s t (err e) h v a b = (v, a, b)

module _ (os : Os) where
  pub greg_now-ReadTicks : (s : State) → IsValid s → ReadTicks s (greg_now os s)
  unfolding greg_now unix_nanos
  greg_now-ReadTicks s v =
      read_ticks s _ (nanos (os.clock_gettime s.reads))
        (nanos-NanosBelow (os.clock_gettime s.reads) (os.clock_gettime_range s.reads))
        (ground (arith, v)) refl refl

-- A mark below 2^60 moves up to the timestamp that is handed out, which stays below 2^60; a failure
-- leaves it.
abbrev pub Moves : State → Result ℕ × State → Type 0
Moves s (ok g, t) = (s.greg_last < g) × (t.greg_last ≡ g) × (g < 2 ^ 60) × IsValid t
Moves s (err e, t) = (t.greg_last ≡ s.greg_last) × IsValid t

advance_greg-Moves :
    (g : ℕ) (s : State) → IsValid s → s.greg_last < 2 ^ 60 → g < 2 ^ 60 → Moves s (advance_greg g s)
unfolding advance_greg
advance_greg-Moves g s v h k = ground (arith, v)

-- The same for the visible 28 bits of version 2.
abbrev pub MovesV2 : State → Result ℕ × State → Type 0
MovesV2 s (ok g, t) =
    (s.v2_last < t.v2_last)
    × (g / 2 ^ 32 ≡ t.v2_last)
    × (g < 2 ^ 60)
    × IsValid t
    × (t.greg_last ≡ s.greg_last)
MovesV2 s (err e, t) = (t.v2_last ≡ s.v2_last) × IsValid t × (t.greg_last ≡ s.greg_last)

fused :
    (q g : ℕ) → q < 2 ^ 28 → bit_or (shl64 q 32) (bit_and g 0xffffffff) ≡ q * 2 ^ 32 + g % 2 ^ 32
fused q g h =
    rw mask_32
      (omega (arith, bit_or_add 32 q (shl64 q 32) (g % 4294967296) (omega arith) (omega arith)))

advance_v2-MovesV2 :
    (g : ℕ) (s : State) → IsValid s → s.v2_last < 2 ^ 28 → g < 2 ^ 60 → MovesV2 s (advance_v2 g s)
unfolding advance_v2
advance_v2-MovesV2 g s v h k = elim (Bool-cases (leb (shr g 32) s.v2_last)) [
  | inl e ↦ elim (Bool-cases (s.v2_last == 2 ^ 28 - 1)) [
    | inl e' ↦ rw (e, e') (ground (arith, v))
    | inr e' ↦ rw (e, e', fused (s.v2_last + 1) g (ground arith)) (ground (arith, v))
  ]
  | inr e ↦ rw (e, fused (shr g 32) g (omega arith)) (ground (arith, v))
]

moved :
    (s : State) (g : ℕ) (t : State)
    → t.greg_last ≡ s.greg_last
    → (r : Result ℕ × State) → Moves t r
    → Moves s r
moved s g t same (ok x, t') (a, e, k, i) = (omega arith, e, k, i)
moved s g t same (err e, t') h = (h.0 ∙ same, h.1)

moved_v2 :
    (s t : State)
    → t.greg_last ≡ s.greg_last
    → t.v2_last ≡ s.v2_last
    → (r : Result ℕ × State) → MovesV2 t r
    → MovesV2 s r
moved_v2 s t same same' (ok x, t') (a, e, k, i, z) = (omega arith, e, k, i, z ∙ same)
moved_v2 s t same same' (err e, t') h = (h.0 ∙ same', h.1, h.2 ∙ same)

module _ (os : Os) where
  pub greg_monotonic-Moves :
      (s : State) → IsValid s → s.greg_last < 2 ^ 60 → Moves s (greg_monotonic os s)
  unfolding greg_monotonic
  greg_monotonic-Moves s v h =
      continue_rule (ReadTicks s) (Moves s) (greg_now os s) advance_greg (greg_now-ReadTicks os s v)
        (λ g t (k, i, same, _).
          moved s g t same (advance_greg g t) (advance_greg-Moves g t i (omega arith) k))
        (λ e t (i, same, _). (same, i))

  pub v2_monotonic-MovesV2 :
      (s : State) → IsValid s → s.v2_last < 2 ^ 28 → MovesV2 s (v2_monotonic os s)
  unfolding v2_monotonic
  v2_monotonic-MovesV2 s v h =
      continue_rule (ReadTicks s) (MovesV2 s) (greg_now os s) advance_v2 (greg_now-ReadTicks os s v)
        (λ g t (k, i, same, same').
          moved_v2 s t same same' (advance_v2 g t) (advance_v2-MovesV2 g t i (omega arith) k))
        (λ e t (i, same, same'). (same', i, same))
