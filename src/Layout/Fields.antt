-- ===== src/Layout/Fields.antt =====
-- The timestamp fields that `fu_decode_time` reads, as arithmetic.
use fast_uuid.Common.{ℕ, ◌+◌, ◌*◌, ◌%◌, ◌^◌, ◌<◌, ◌≢◌, ◌==◌, false, ◌≡◌, ◌∙◌, arith, bit_or}
use fast_uuid.Common.Bits.{mask_4, bit_and_mask, bit_or_add}
use fast_uuid.Uuid.{Uuid, IsBytes}
use fast_uuid.Layout.{ticks_v1, ticks_v6, millis_v7, shl64}

or_step : (k q l r v : ℕ) → l ≡ q * 2 ^ k → r < 2 ^ k → l + r ≡ v → bit_or l r ≡ v
or_step k q l r v e h s = bit_or_add k q l r e h ∙ s

or_six :
    (x0 x1 x2 x3 x4 x5 : ℕ)
    → x0 < 256
    → x1 < 256
    → x2 < 256
    → x3 < 256
    → x4 < 256
    → x5 < 256
    → bit_or
        (bit_or
          (bit_or (bit_or (bit_or (shl64 x0 40) (shl64 x1 32)) (shl64 x2 24)) (shl64 x3 16))
          (shl64 x4 8))
        x5
      ≡ x0 * 2 ^ 40 + x1 * 2 ^ 32 + x2 * 2 ^ 24 + x3 * 2 ^ 16 + x4 * 2 ^ 8 + x5
or_six x0 x1 x2 x3 x4 x5 hx0 hx1 hx2 hx3 hx4 hx5 =
    let s1 : bit_or (shl64 x0 40) (shl64 x1 32) ≡ x0 * 2 ^ 40 + x1 * 2 ^ 32 =
      or_step 40 (x0) (shl64 x0 40) (shl64 x1 32) (x0 * 2 ^ 40 + x1 * 2 ^ 32) (omega arith)
        (omega arith) (omega arith) in
    let s2 : bit_or (bit_or (shl64 x0 40) (shl64 x1 32)) (shl64 x2 24)
        ≡ x0 * 2 ^ 40 + x1 * 2 ^ 32 + x2 * 2 ^ 24 =
      or_step 32 (x0 * 2 ^ 8 + x1) (bit_or (shl64 x0 40) (shl64 x1 32)) (shl64 x2 24)
        (x0 * 2 ^ 40 + x1 * 2 ^ 32 + x2 * 2 ^ 24) (omega (arith, s1)) (omega arith)
        (omega (arith, s1)) in
    let s3 : bit_or (bit_or (bit_or (shl64 x0 40) (shl64 x1 32)) (shl64 x2 24)) (shl64 x3 16)
        ≡ x0 * 2 ^ 40 + x1 * 2 ^ 32 + x2 * 2 ^ 24 + x3 * 2 ^ 16 =
      or_step 24 (x0 * 2 ^ 16 + x1 * 2 ^ 8 + x2)
        (bit_or (bit_or (shl64 x0 40) (shl64 x1 32)) (shl64 x2 24)) (shl64 x3 16)
        (x0 * 2 ^ 40 + x1 * 2 ^ 32 + x2 * 2 ^ 24 + x3 * 2 ^ 16) (omega (arith, s2)) (omega arith)
        (omega (arith, s2)) in
    let s4 : bit_or
          (bit_or (bit_or (bit_or (shl64 x0 40) (shl64 x1 32)) (shl64 x2 24)) (shl64 x3 16))
          (shl64 x4 8)
        ≡ x0 * 2 ^ 40 + x1 * 2 ^ 32 + x2 * 2 ^ 24 + x3 * 2 ^ 16 + x4 * 2 ^ 8 =
      or_step 16 (x0 * 2 ^ 24 + x1 * 2 ^ 16 + x2 * 2 ^ 8 + x3)
        (bit_or (bit_or (bit_or (shl64 x0 40) (shl64 x1 32)) (shl64 x2 24)) (shl64 x3 16))
        (shl64 x4 8) (x0 * 2 ^ 40 + x1 * 2 ^ 32 + x2 * 2 ^ 24 + x3 * 2 ^ 16 + x4 * 2 ^ 8)
        (omega (arith, s3)) (omega arith) (omega (arith, s3)) in
    or_step 8 (x0 * 2 ^ 32 + x1 * 2 ^ 24 + x2 * 2 ^ 16 + x3 * 2 ^ 8 + x4)
      (bit_or (bit_or (bit_or (bit_or (shl64 x0 40) (shl64 x1 32)) (shl64 x2 24)) (shl64 x3 16))
        (shl64 x4 8))
      x5 (x0 * 2 ^ 40 + x1 * 2 ^ 32 + x2 * 2 ^ 24 + x3 * 2 ^ 16 + x4 * 2 ^ 8 + x5)
      (omega (arith, s4)) (omega arith) (omega (arith, s4))

or_four :
    (x0 x1 x2 x3 : ℕ)
    → x0 < 256
    → x1 < 256
    → x2 < 256
    → x3 < 256
    → bit_or (bit_or (bit_or (shl64 x0 24) (shl64 x1 16)) (shl64 x2 8)) x3
      ≡ x0 * 2 ^ 24 + x1 * 2 ^ 16 + x2 * 2 ^ 8 + x3
or_four x0 x1 x2 x3 hx0 hx1 hx2 hx3 =
    let s1 : bit_or (shl64 x0 24) (shl64 x1 16) ≡ x0 * 2 ^ 24 + x1 * 2 ^ 16 =
      or_step 24 (x0) (shl64 x0 24) (shl64 x1 16) (x0 * 2 ^ 24 + x1 * 2 ^ 16) (omega arith)
        (omega arith) (omega arith) in
    let s2 : bit_or (bit_or (shl64 x0 24) (shl64 x1 16)) (shl64 x2 8)
        ≡ x0 * 2 ^ 24 + x1 * 2 ^ 16 + x2 * 2 ^ 8 =
      or_step 16 (x0 * 2 ^ 8 + x1) (bit_or (shl64 x0 24) (shl64 x1 16)) (shl64 x2 8)
        (x0 * 2 ^ 24 + x1 * 2 ^ 16 + x2 * 2 ^ 8) (omega (arith, s1)) (omega arith)
        (omega (arith, s1)) in
    or_step 8 (x0 * 2 ^ 16 + x1 * 2 ^ 8 + x2)
      (bit_or (bit_or (shl64 x0 24) (shl64 x1 16)) (shl64 x2 8)) x3
      (x0 * 2 ^ 24 + x1 * 2 ^ 16 + x2 * 2 ^ 8 + x3) (omega (arith, s2)) (omega arith)
      (omega (arith, s2))

or_two : (x0 x1 : ℕ) → x0 < 256 → x1 < 256 → bit_or (shl64 x0 8) x1 ≡ x0 * 2 ^ 8 + x1
or_two x0 x1 hx0 hx1 =
    or_step 8 (x0) (shl64 x0 8) x1 (x0 * 2 ^ 8 + x1) (omega arith) (omega arith) (omega arith)

or_v6 :
    (x0 x1 x2 x3 x4 x5 n x7 : ℕ)
    → x0 < 256
    → x1 < 256
    → x2 < 256
    → x3 < 256
    → x4 < 256
    → x5 < 256
    → n < 16
    → x7 < 256
    → bit_or
        (bit_or
          (bit_or
            (bit_or
              (bit_or (bit_or (bit_or (shl64 x0 52) (shl64 x1 44)) (shl64 x2 36)) (shl64 x3 28))
              (shl64 x4 20))
            (shl64 x5 12))
          (shl64 n 8))
        x7
      ≡ x0 * 2 ^ 52
        + x1 * 2 ^ 44
        + x2 * 2 ^ 36
        + x3 * 2 ^ 28
        + x4 * 2 ^ 20
        + x5 * 2 ^ 12
        + n * 2 ^ 8
        + x7
or_v6 x0 x1 x2 x3 x4 x5 n x7 hx0 hx1 hx2 hx3 hx4 hx5 hn hx7 =
    let s1 : bit_or (shl64 x0 52) (shl64 x1 44) ≡ x0 * 2 ^ 52 + x1 * 2 ^ 44 =
      or_step 52 (x0) (shl64 x0 52) (shl64 x1 44) (x0 * 2 ^ 52 + x1 * 2 ^ 44) (omega arith)
        (omega arith) (omega arith) in
    let s2 : bit_or (bit_or (shl64 x0 52) (shl64 x1 44)) (shl64 x2 36)
        ≡ x0 * 2 ^ 52 + x1 * 2 ^ 44 + x2 * 2 ^ 36 =
      or_step 44 (x0 * 2 ^ 8 + x1) (bit_or (shl64 x0 52) (shl64 x1 44)) (shl64 x2 36)
        (x0 * 2 ^ 52 + x1 * 2 ^ 44 + x2 * 2 ^ 36) (omega (arith, s1)) (omega arith)
        (omega (arith, s1)) in
    let s3 : bit_or (bit_or (bit_or (shl64 x0 52) (shl64 x1 44)) (shl64 x2 36)) (shl64 x3 28)
        ≡ x0 * 2 ^ 52 + x1 * 2 ^ 44 + x2 * 2 ^ 36 + x3 * 2 ^ 28 =
      or_step 36 (x0 * 2 ^ 16 + x1 * 2 ^ 8 + x2)
        (bit_or (bit_or (shl64 x0 52) (shl64 x1 44)) (shl64 x2 36)) (shl64 x3 28)
        (x0 * 2 ^ 52 + x1 * 2 ^ 44 + x2 * 2 ^ 36 + x3 * 2 ^ 28) (omega (arith, s2)) (omega arith)
        (omega (arith, s2)) in
    let s4 : bit_or
          (bit_or (bit_or (bit_or (shl64 x0 52) (shl64 x1 44)) (shl64 x2 36)) (shl64 x3 28))
          (shl64 x4 20)
        ≡ x0 * 2 ^ 52 + x1 * 2 ^ 44 + x2 * 2 ^ 36 + x3 * 2 ^ 28 + x4 * 2 ^ 20 =
      or_step 28 (x0 * 2 ^ 24 + x1 * 2 ^ 16 + x2 * 2 ^ 8 + x3)
        (bit_or (bit_or (bit_or (shl64 x0 52) (shl64 x1 44)) (shl64 x2 36)) (shl64 x3 28))
        (shl64 x4 20) (x0 * 2 ^ 52 + x1 * 2 ^ 44 + x2 * 2 ^ 36 + x3 * 2 ^ 28 + x4 * 2 ^ 20)
        (omega (arith, s3)) (omega arith) (omega (arith, s3)) in
    let s5 : bit_or
          (bit_or (bit_or (bit_or (bit_or (shl64 x0 52) (shl64 x1 44)) (shl64 x2 36)) (shl64 x3 28))
            (shl64 x4 20))
          (shl64 x5 12)
        ≡ x0 * 2 ^ 52 + x1 * 2 ^ 44 + x2 * 2 ^ 36 + x3 * 2 ^ 28 + x4 * 2 ^ 20 + x5 * 2 ^ 12 =
      or_step 20 (x0 * 2 ^ 32 + x1 * 2 ^ 24 + x2 * 2 ^ 16 + x3 * 2 ^ 8 + x4)
        (bit_or (bit_or (bit_or (bit_or (shl64 x0 52) (shl64 x1 44)) (shl64 x2 36)) (shl64 x3 28))
          (shl64 x4 20))
        (shl64 x5 12)
        (x0 * 2 ^ 52 + x1 * 2 ^ 44 + x2 * 2 ^ 36 + x3 * 2 ^ 28 + x4 * 2 ^ 20 + x5 * 2 ^ 12)
        (omega (arith, s4)) (omega arith) (omega (arith, s4)) in
    let s6 : bit_or
          (bit_or
            (bit_or
              (bit_or (bit_or (bit_or (shl64 x0 52) (shl64 x1 44)) (shl64 x2 36)) (shl64 x3 28))
              (shl64 x4 20))
            (shl64 x5 12))
          (shl64 n 8)
        ≡ x0 * 2 ^ 52
          + x1 * 2 ^ 44
          + x2 * 2 ^ 36
          + x3 * 2 ^ 28
          + x4 * 2 ^ 20
          + x5 * 2 ^ 12
          + n * 2 ^ 8 =
      or_step 12 (x0 * 2 ^ 40 + x1 * 2 ^ 32 + x2 * 2 ^ 24 + x3 * 2 ^ 16 + x4 * 2 ^ 8 + x5)
        (bit_or
          (bit_or (bit_or (bit_or (bit_or (shl64 x0 52) (shl64 x1 44)) (shl64 x2 36)) (shl64 x3 28))
            (shl64 x4 20))
          (shl64 x5 12))
        (shl64 n 8)
        (x0 * 2 ^ 52
          + x1 * 2 ^ 44
          + x2 * 2 ^ 36
          + x3 * 2 ^ 28
          + x4 * 2 ^ 20
          + x5 * 2 ^ 12
          + n * 2 ^ 8)
        (omega (arith, s5)) (omega arith) (omega (arith, s5)) in
    or_step 8 (x0 * 2 ^ 44 + x1 * 2 ^ 36 + x2 * 2 ^ 28 + x3 * 2 ^ 20 + x4 * 2 ^ 12 + x5 * 2 ^ 4 + n)
      (bit_or
        (bit_or
          (bit_or (bit_or (bit_or (bit_or (shl64 x0 52) (shl64 x1 44)) (shl64 x2 36)) (shl64 x3 28))
            (shl64 x4 20))
          (shl64 x5 12))
        (shl64 n 8))
      x7
      (x0 * 2 ^ 52
        + x1 * 2 ^ 44
        + x2 * 2 ^ 36
        + x3 * 2 ^ 28
        + x4 * 2 ^ 20
        + x5 * 2 ^ 12
        + n * 2 ^ 8
        + x7)
      (omega (arith, s6)) (omega arith) (omega (arith, s6))

ver_test : (ver : ℕ) → ver ≢ 2 → (ver == 2) ≡ false
ver_test ver ne = ground arith

ticks_fields :
    (th tm tl : ℕ)
    → th < 2 ^ 12
    → tm < 2 ^ 16
    → tl < 2 ^ 32
    → bit_or (bit_or (shl64 th 48) (shl64 tm 32)) tl ≡ th * 2 ^ 48 + tm * 2 ^ 32 + tl
ticks_fields th tm tl a b c =
    let upper : bit_or (shl64 th 48) (shl64 tm 32) ≡ th * 2 ^ 48 + tm * 2 ^ 32 =
      or_step 48 th (shl64 th 48) (shl64 tm 32) (th * 2 ^ 48 + tm * 2 ^ 32) (omega arith)
        (omega arith) (omega arith) in
    or_step 32 (th * 2 ^ 16 + tm) (bit_or (shl64 th 48) (shl64 tm 32)) tl
      (th * 2 ^ 48 + tm * 2 ^ 32 + tl) (omega (arith, upper)) (omega arith) (omega (arith, upper))

pub ticks_v6_value :
    (b : Uuid)
    → IsBytes b
    → ticks_v6 b
      ≡ b.b0 * 2 ^ 52
        + b.b1 * 2 ^ 44
        + b.b2 * 2 ^ 36
        + b.b3 * 2 ^ 28
        + b.b4 * 2 ^ 20
        + b.b5 * 2 ^ 12
        + b.b6 % 16 * 2 ^ 8
        + b.b7
unfolding ticks_v6
ticks_v6_value b h = rw (bit_and_mask 4 b.b6) (
    or_v6 b.b0 b.b1 b.b2 b.b3 b.b4 b.b5 (b.b6 % 16) b.b7 (omega arith) (omega arith) (omega arith)
      (omega arith) (omega arith) (omega arith) (omega arith) (omega arith))

pub ticks_v1_value :
    (b : Uuid) (ver : ℕ)
    → IsBytes b
    → ver ≢ 2
    → ticks_v1 b ver
      ≡ (b.b6 % 16 * 2 ^ 8 + b.b7) * 2 ^ 48
        + (b.b4 * 2 ^ 8 + b.b5) * 2 ^ 32
        + (b.b0 * 2 ^ 24 + b.b1 * 2 ^ 16 + b.b2 * 2 ^ 8 + b.b3)
unfolding ticks_v1
ticks_v1_value b ver h ne =
    rw (ver_test ver ne, mask_4 b.b6, th, tm, tl)
      (ticks_fields _ _ _ (omega arith) (omega arith) (omega arith))
  where
    th : bit_or (shl64 (b.b6 % 16) 8) b.b7 ≡ b.b6 % 16 * 2 ^ 8 + b.b7
    th = or_two (b.b6 % 16) b.b7 (omega arith) (omega arith)

    tm : bit_or (shl64 b.b4 8) b.b5 ≡ b.b4 * 2 ^ 8 + b.b5
    tm = or_two b.b4 b.b5 (omega arith) (omega arith)

    tl :
        bit_or (bit_or (bit_or (shl64 b.b0 24) (shl64 b.b1 16)) (shl64 b.b2 8)) b.b3
        ≡ b.b0 * 2 ^ 24 + b.b1 * 2 ^ 16 + b.b2 * 2 ^ 8 + b.b3
    tl = or_four b.b0 b.b1 b.b2 b.b3 (omega arith) (omega arith) (omega arith) (omega arith)

-- Version 2 has no low field.
pub ticks_v1_value_2 :
    (b : Uuid)
    → IsBytes b
    → ticks_v1 b 2 ≡ (b.b6 % 16 * 2 ^ 8 + b.b7) * 2 ^ 48 + (b.b4 * 2 ^ 8 + b.b5) * 2 ^ 32
unfolding ticks_v1
ticks_v1_value_2 b h =
    rw (mask_4 b.b6, th, tm)
      (ticks_fields (b.b6 % 16 * 2 ^ 8 + b.b7) (b.b4 * 2 ^ 8 + b.b5) 0 (omega arith) (omega arith)
          (omega arith)
        ∙ omega arith)
  where
    th : bit_or (shl64 (b.b6 % 16) 8) b.b7 ≡ b.b6 % 16 * 2 ^ 8 + b.b7
    th = or_two (b.b6 % 16) b.b7 (omega arith) (omega arith)

    tm : bit_or (shl64 b.b4 8) b.b5 ≡ b.b4 * 2 ^ 8 + b.b5
    tm = or_two b.b4 b.b5 (omega arith) (omega arith)

pub millis_v7_value :
    (b : Uuid)
    → IsBytes b
    → millis_v7 b
      ≡ b.b0 * 2 ^ 40 + b.b1 * 2 ^ 32 + b.b2 * 2 ^ 24 + b.b3 * 2 ^ 16 + b.b4 * 2 ^ 8 + b.b5
unfolding millis_v7
millis_v7_value b h =
    or_six b.b0 b.b1 b.b2 b.b3 b.b4 b.b5 (omega arith) (omega arith) (omega arith) (omega arith)
      (omega arith) (omega arith)
