-- ===== src/Clock/Windows.antt =====
-- The Windows branch of `fu_unix_nanos` against the POSIX branch at the same instant.
use fast_uuid.Common.{
  ℕ, ◌+◌, ◌-◌, ◌*◌, ◌/◌, ◌%◌, ◌^◌, ◌<◌, ◌≡◌, arith, Option, none, some, ltb, leb, bit_or, ok, err,
  Bool-cases, inl, inr, true, false, ap, ◌∙◌, if◌then◌else◌, unsupported_operation,
}
use fast_uuid.Common.Int.{ℤ, sub_ℕ}
use fast_uuid.Common.Bits.{bit_or_add}
use fast_uuid.Layout.{shl64}
use fast_uuid.Clock.{nanos, windows_nanos, filetime_unix_epoch}

-- The reading that is taken: the precise one, where there is one.
abbrev pub reading : Option (ℕ × ℕ) → ℕ × ℕ → ℕ × ℕ
reading (some precise) coarse = precise
reading none coarse = coarse

-- The instant as `clock_gettime` would give it: seconds since 1970, and nanoseconds.
abbrev pub timespec : ℕ → ℤ × ℕ
timespec t100 = (sub_ℕ (t100 / 10000000) 11644473600, t100 % 10000000 * 100)

joined :
    (high low : ℕ) → high < 2 ^ 32 → low < 2 ^ 32 → bit_or (shl64 high 32) low ≡ high * 2 ^ 32 + low
joined high low h k =
    let e : shl64 high 32 ≡ high * 2 ^ 32 = omega arith in
    bit_or_add 32 high (shl64 high 32) low e k ∙ ap (λ t. t + low) e

ticks_nanos :
    (t : ℕ)
    → (if ltb t filetime_unix_epoch
        then err (unsupported_operation "System clock is before the Unix epoch")
        else if ltb ((2 ^ 64 - 1) / 100) (t - filetime_unix_epoch)
        then err (
            unsupported_operation
              "System clock too far in the future for nanosecond representation")
        else ok ((t - filetime_unix_epoch) * 100))
      ≡ nanos (some (timespec t))
unfolding nanos
ticks_nanos t = elim (Bool-cases (ltb t filetime_unix_epoch)) [
  | inl e ↦ let f : leb 11644473600 (t / 10000000) ≡ false = ground arith in rw (e, f)
  | inr e ↦
      let f : leb 11644473600 (t / 10000000) ≡ true = ground arith in
      let sec = t / 10000000 - 11644473600 in
      let nsec = t % 10000000 * 100 in
      let same : (t - filetime_unix_epoch) * 100 ≡ sec * 1000000000 + nsec = ground arith in
      elim (Bool-cases (ltb ((2 ^ 64 - 1) / 100) (t - filetime_unix_epoch))) [
        | inl g ↦
            let h : ltb ((2 ^ 64 - 1 - nsec) / 1000000000) sec ≡ true = ground arith in
            rw (e, f, g, h)
        | inr g ↦
            let h : ltb ((2 ^ 64 - 1 - nsec) / 1000000000) sec ≡ false = ground arith in
            rw (e, f, g, h) (ap (λ n. ok n) same)
      ]
]

-- For a FILETIME of two 32-bit words, the Windows branch ends with what the POSIX branch makes of the
-- same instant, exceptions included; the precise time goes before the coarse one.
pub windows_nanos-nanos :
    (precise : Option (ℕ × ℕ)) (coarse : ℕ × ℕ)
    → (reading precise coarse).0 < 2 ^ 32
    → (reading precise coarse).1 < 2 ^ 32
    → windows_nanos precise coarse
      ≡ nanos (some (timespec ((reading precise coarse).0 * 2 ^ 32 + (reading precise coarse).1)))
unfolding windows_nanos
windows_nanos-nanos (some (high, low)) coarse h k =
    rw (joined high low h k) (ticks_nanos (high * 2 ^ 32 + low))
windows_nanos-nanos none (high, low) h k =
    rw (joined high low h k) (ticks_nanos (high * 2 ^ 32 + low))
