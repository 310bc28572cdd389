-- ===== src/Layout/Decode.antt =====
-- `fu_decode_time` reads back the timestamp of each version.
use fast_uuid.Common.{ℕ, ◌*◌, ◌/◌, ◌%◌, ◌≡◌, arith, some, true}
use fast_uuid.Common.Bits.{mask_high, mask_4}
use fast_uuid.Common.Int.{pos}
use fast_uuid.Uuid.{Uuid, IsBytes}
use fast_uuid.Layout.{
  ticks_v1, ticks_v6, millis_v7, ticks_time, decode_time, variant_is_rfc, version, shr,
}

-- The version nibble and the variant bits of sixteen bytes.
abbrev pub IsVersion : ℕ → Uuid → Type 0
IsVersion v u = (u.b6 / 16 ≡ v) × (u.b8 / 64 ≡ 2)

pub IsVersion-tests :
    (v : ℕ) (u : Uuid) → IsBytes u → IsVersion v u → (variant_is_rfc u ≡ true) × (version u ≡ v)
IsVersion-tests v u h k = ground (arith, (mask_high u.b8 (omega arith)).1, mask_4 (shr u.b6 4), k)

pub decode_time-v1 :
    (u : Uuid) → IsBytes u → IsVersion 1 u → decode_time u ≡ some (ticks_time (ticks_v1 u 1))
decode_time-v1 u h k = let (r, e) = IsVersion-tests 1 u h k in unfold decode_time in rw (r, e)

pub decode_time-v2 :
    (u : Uuid) → IsBytes u → IsVersion 2 u → decode_time u ≡ some (ticks_time (ticks_v1 u 2))
decode_time-v2 u h k = let (r, e) = IsVersion-tests 2 u h k in unfold decode_time in rw (r, e)

pub decode_time-v6 :
    (u : Uuid) → IsBytes u → IsVersion 6 u → decode_time u ≡ some (ticks_time (ticks_v6 u))
decode_time-v6 u h k = let (r, e) = IsVersion-tests 6 u h k in unfold decode_time in rw (r, e)

pub decode_time-v7 :
    (u : Uuid)
    → IsBytes u
    → IsVersion 7 u
    → decode_time u ≡ some (pos (millis_v7 u / 1000), millis_v7 u % 1000 * 1000)
decode_time-v7 u h k = let (r, e) = IsVersion-tests 7 u h k in unfold decode_time in rw (r, e)
