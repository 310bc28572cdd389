-- ===== src/V7/Dated.antt =====
-- Version 7 for a time that the caller gives (`fu_v7_at_ms`) and from the clock: what
-- `fu_decode_time` reads from the result.
use fast_uuid.Common.{
  ℕ, ◌*◌, ◌/◌, ◌%◌, ◌^◌, ◌<◌, ◌≤◌, ◌≡◌, refl, ap, ◌∙◌, arith, some, Result, ok, err, ltb,
  Bool-cases, inl, inr, bit_and, ◌⊎◌,
}
use fast_uuid.Common.Bits.{masks, fields}
use fast_uuid.Common.Int.{ℤ, pos, negsuc}
use fast_uuid.State.{State, Os, continue_rule}
use fast_uuid.Uuid.{Uuid, IsBytes}
use fast_uuid.Layout.{lay_v7, decode_time}
use fast_uuid.Layout.Laid.{lay_v7-IsBytes, millis_v7-lay_v7}
use fast_uuid.Layout.Decode.{IsVersion, decode_time-v7}
use fast_uuid.Random.{rand_u64}
use fast_uuid.Random.Valid.{IsValid}
use fast_uuid.V7.{gen_v7_at, v7_at_ms, ms48_max, out_of_range, randb_mask}
use fast_uuid.V7.Increase.{Drawn, DrawnBy, rand_u64-DrawnBy}

-- A version 7 of sixteen bytes that decodes to these milliseconds.
abbrev pub IsDated : ℕ → Uuid → Type 0
IsDated ms u =
    IsBytes u × IsVersion 7 u × (decode_time u ≡ some (pos (ms / 1000), ms % 1000 * 1000))

IsVersion-v7 : (ms sub randb : ℕ) → IsVersion 7 (lay_v7 ms sub randb)
unfolding lay_v7
IsVersion-v7 ms sub randb = omega (arith, masks, fields)

pub lay_v7-IsDated : (ms sub randb : ℕ) → ms < 2 ^ 48 → IsDated ms (lay_v7 ms sub randb)
lay_v7-IsDated ms sub randb h =
    let i = lay_v7-IsBytes ms sub randb in
    let w = IsVersion-v7 ms sub randb in
    (
      i,
      w,
      decode_time-v7 (lay_v7 ms sub randb) i w
          ∙ ap (λ x. some (pos (x / 1000), x % 1000 * 1000)) (millis_v7-lay_v7 ms sub randb h),
    )

abbrev pub OutOfRange : ℤ → Type 0
OutOfRange (pos m) = 2 ^ 48 ≤ m
OutOfRange (negsuc m) = Unit {0}

abbrev pub DrewDated : ℕ → State → Result Uuid × State → Type 0
DrewDated m s (ok u, t) = IsDated m u × Drawn s t
DrewDated m s (err e, t) = Drawn s t

pub gen_v7_at-DrewDated :
    (os : Os) (m sub : ℕ) (s : State)
    → IsValid s
    → m < 2 ^ 48
    → DrewDated m s (gen_v7_at os m sub s)
unfolding gen_v7_at
gen_v7_at-DrewDated os m sub s v h =
    continue_rule (DrawnBy s) (DrewDated m s) (rand_u64 os s) _ (rand_u64-DrawnBy os s v)
      (λ r t d. (lay_v7-IsDated m sub (bit_and r randb_mask) h, d)) (λ e t d. d)

-- A time in 48 bits gives a UUID with that time, unless the draw fails; any other is refused, and
-- the state stays as it is.
abbrev pub Dates : ℤ → State → Result Uuid × State → Type 0
Dates ms s r =
    (OutOfRange ms × (r ≡ (err out_of_range, s)))
    ⊎ ((m : ℕ) × (ms ≡ pos m) × (m < 2 ^ 48) × DrewDated m s r)

-- In a valid state, a time outside 48 bits is refused and leaves the state; for any other, a call
-- that returns gives sixteen bytes of version 7 that decode to that time, and whether it returns or
-- fails, the state stays valid and no clock mark moves.
pub v7_at_ms-Dates : (os : Os) (ms : ℤ) (s : State) → IsValid s → Dates ms s (v7_at_ms os ms s)
unfolding v7_at_ms
v7_at_ms-Dates os (negsuc m) s v = inl (tt, refl)
v7_at_ms-Dates os (pos m) s v = elim (Bool-cases (ltb ms48_max m)) [
  | inl e ↦ rw e (inl (ground (arith, e), refl))
  | inr e ↦
      let h : m < 2 ^ 48 = ground (arith, e) in
      rw e (inr (m, refl, h, gen_v7_at-DrewDated os m 0 s v h))
]
