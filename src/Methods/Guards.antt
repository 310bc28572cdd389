-- ===== src/Methods/Guards.antt =====
-- What the checks of the factory methods let through.
use fast_uuid.Common.{
  ℕ, ◌+◌, ◌*◌, ◌/◌, ◌%◌, ◌^◌, ◌<◌, ◌≡◌, refl, arith, Result, err, Exception, ltb, Bool-cases, inl,
  inr, ◌⊎◌,
}
use fast_uuid.Common.Int.{ℤ, pos, negsuc}
use fast_uuid.State.{State, Os}
use fast_uuid.Uuid.{Uuid}
use fast_uuid.Random.Valid.{IsValid}
use fast_uuid.V7.{ms48_max}
use fast_uuid.V7.Dated.{DrewDated, gen_v7_at-DrewDated}
use fast_uuid.Methods.{v7_at_datetime}

-- The date is refused and the state stays, or it gives a UUID of its milliseconds.
abbrev pub DatedBy : ℤ × ℕ → State → Result Uuid × State → Type 0
DatedBy when s r =
    ((e : Exception) × (r ≡ (err e, s)))
    ⊎ ((sec : ℕ) × (when.0 ≡ pos sec)
        × (sec * 1000 + when.1 / 1000 < 2 ^ 48)
        × DrewDated (sec * 1000 + when.1 / 1000) s r)

-- In a valid state, a date is refused, which leaves the state, or its milliseconds since 1970 fit 48
-- bits; then a call that returns gives sixteen bytes of version 7 that decode to those milliseconds,
-- and whether it returns or fails, the state stays valid and no clock mark moves.
pub v7_at_datetime-DatedBy :
    (os : Os) (when : ℤ × ℕ) (s : State) → IsValid s → DatedBy when s (v7_at_datetime os when s)
unfolding v7_at_datetime
v7_at_datetime-DatedBy os (negsuc sec, micros) s v = inl (_, refl)
v7_at_datetime-DatedBy os (pos sec, micros) s v = elim (Bool-cases (ltb 281474976710 sec)) [
  | inl e ↦ rw e (inl (_, refl))
  | inr e ↦ elim (Bool-cases (ltb ms48_max (sec * 1000 + micros / 1000))) [
    | inl f ↦ rw (e, f) (inl (_, refl))
    | inr f ↦
        let h : sec * 1000 + micros / 1000 < 2 ^ 48 = ground (arith, f) in
        rw (e, f)
          (inr (
            sec,
            refl,
            h,
            gen_v7_at-DrewDated os (sec * 1000 + micros / 1000) (micros % 1000 * 4096 / 1000) s v h,
          ))
  ]
]
