-- ===== src/Layout.antt =====
-- fast_uuid.c: the byte layouts of the versions, and `fu_decode_time`.
pub mod Fields
pub mod Laid
pub mod Decode
use fast_uuid.Common.{
  ℕ, suc, zero, ◌+◌, ◌-◌, ◌*◌, ◌/◌, ◌%◌, ◌^◌, Bool, true, false, Option, none, some, List, ◌∷◌,
  get_or, ◌==◌, ◌||◌, not, if◌then◌else◌, bit_and, bit_or,
}
use fast_uuid.Common.Int.{ℤ, pos, negsuc, sub_ℕ}
use fast_uuid.Uuid.{Uuid}

-- `x >> k`, and `(uint64_t)x << k`.
abbrev pub shr : ℕ → ℕ → ℕ
shr x k = x / 2 ^ k

abbrev pub shl64 : ℕ → ℕ → ℕ
shl64 x k = x * 2 ^ k % 2 ^ 64

-- A store into an `unsigned char`.
abbrev pub u8 : ℕ → ℕ
u8 x = x % 2 ^ 8

-- The stores into `b[0]` to `b[7]` of `fu_lay_v1`.
unfoldable pub stamp_v1 : Uuid → ℕ → Uuid
stamp_v1 b g =
    let tl = bit_and g 0xffffffff % 2 ^ 32 in
    let tm = bit_and (shr g 32) 0xffff % 2 ^ 16 in
    let th = bit_or (bit_and (shr g 48) 0x0fff % 2 ^ 16) 0x1000 in
    record b {
      b0 = u8 (shr tl 24);
      b1 = u8 (shr tl 16);
      b2 = u8 (shr tl 8);
      b3 = u8 tl;
      b4 = u8 (shr tm 8);
      b5 = u8 tm;
      b6 = u8 (shr th 8);
      b7 = u8 th;
    }

-- Those of `fu_lay_v6`.
unfoldable pub stamp_v6 : Uuid → ℕ → Uuid
stamp_v6 b g =
    let t60 = bit_and g 0xfffffffffffffff in
    record b {
      b0 = bit_and (shr t60 52) 0xff;
      b1 = bit_and (shr t60 44) 0xff;
      b2 = bit_and (shr t60 36) 0xff;
      b3 = bit_and (shr t60 28) 0xff;
      b4 = bit_and (shr t60 20) 0xff;
      b5 = bit_and (shr t60 12) 0xff;
      b6 = bit_or 0x60 (bit_and (shr t60 8) 0x0f);
      b7 = bit_and t60 0xff;
    }

-- The stores of `fu_lay_clockseq_node`, once both values are chosen.
unfoldable pub place_node : Uuid → ℕ → List ℕ → Uuid
place_node b clockseq node = record b {
  b8 = bit_or (bit_and (shr clockseq 8) 0x3f) 0x80;
  b9 = bit_and clockseq 0xff;
  b10 = get_or node 0 0;
  b11 = get_or node 1 0;
  b12 = get_or node 2 0;
  b13 = get_or node 3 0;
  b14 = get_or node 4 0;
  b15 = get_or node 5 0;
}

-- The stores at the end of `fu_gen_v2`: the local identifier, the version and the local domain.
unfoldable pub place_dce : Uuid → ℕ → ℕ → Uuid
place_dce b local_id local_domain = record b {
  b0 = bit_and (shr local_id 24) 0xff;
  b1 = bit_and (shr local_id 16) 0xff;
  b2 = bit_and (shr local_id 8) 0xff;
  b3 = bit_and local_id 0xff;
  b6 = bit_or (bit_and b.b6 0x0f) 0x20;
  b9 = local_domain;
}

-- `fu_lay_v7`
unfoldable pub lay_v7 : ℕ → ℕ → ℕ → Uuid
lay_v7 ms sub randb = record {
  b0 = bit_and (shr ms 40) 0xff;
  b1 = bit_and (shr ms 32) 0xff;
  b2 = bit_and (shr ms 24) 0xff;
  b3 = bit_and (shr ms 16) 0xff;
  b4 = bit_and (shr ms 8) 0xff;
  b5 = bit_and ms 0xff;
  b6 = bit_or 0x70 (bit_and (shr sub 8) 0x0f);
  b7 = bit_and sub 0xff;
  b8 = bit_or 0x80 (bit_and (shr randb 56) 0x3f);
  b9 = bit_and (shr randb 48) 0xff;
  b10 = bit_and (shr randb 40) 0xff;
  b11 = bit_and (shr randb 32) 0xff;
  b12 = bit_and (shr randb 24) 0xff;
  b13 = bit_and (shr randb 16) 0xff;
  b14 = bit_and (shr randb 8) 0xff;
  b15 = bit_and randb 0xff;
}

-- `FU_GREG_UNIX_EPOCH`, in ticks of 100 ns.
abbrev pub greg_unix_epoch : ℕ
greg_unix_epoch = 0x01B21DD213814000

abbrev pub variant_is_rfc : Uuid → Bool
variant_is_rfc b = bit_and b.b8 0xC0 == 0x80

abbrev pub version : Uuid → ℕ
version b = bit_and (shr b.b6 4) 0x0f

-- The 60-bit timestamp as `fu_decode_time` reads it from versions 6, 1 and 2.
unfoldable pub ticks_v6 : Uuid → ℕ
ticks_v6 b =
    bit_or
      (bit_or
        (bit_or
          (bit_or
            (bit_or (bit_or (bit_or (shl64 b.b0 52) (shl64 b.b1 44)) (shl64 b.b2 36))
              (shl64 b.b3 28))
            (shl64 b.b4 20))
          (shl64 b.b5 12))
        (shl64 (bit_and b.b6 0x0f) 8))
      b.b7

unfoldable pub ticks_v1 : Uuid → ℕ → ℕ
ticks_v1 b ver =
    let th = bit_or (shl64 (bit_and b.b6 0x0f) 8) b.b7 in
    let tm = bit_or (shl64 b.b4 8) b.b5 in
    let tl =
      if ver == 2
      then 0
      else bit_or (bit_or (bit_or (shl64 b.b0 24) (shl64 b.b1 16)) (shl64 b.b2 8)) b.b3 in
    bit_or (bit_or (shl64 th 48) (shl64 tm 32)) tl

unfoldable pub millis_v7 : Uuid → ℕ
millis_v7 b =
    bit_or
      (bit_or
        (bit_or (bit_or (bit_or (shl64 b.b0 40) (shl64 b.b1 32)) (shl64 b.b2 24)) (shl64 b.b3 16))
        (shl64 b.b4 8))
      b.b5

-- Seconds since the Unix epoch, and microseconds, of a count of ticks.
unfoldable pub ticks_time : ℕ → ℤ × ℕ
ticks_time t60 = (sub_ℕ (t60 / 10000000) (greg_unix_epoch / 10000000), t60 % 10000000 / 10)

-- `fu_decode_time`; `none` is the result 0.
unfoldable pub decode_time : Uuid → Option (ℤ × ℕ)
unfolding ticks_v6 ticks_v1 millis_v7 ticks_time
decode_time b =
    let ver = version b in
    let ms = millis_v7 b in
    if not (variant_is_rfc b)
    then none
    else if ver == 1 || ver == 2 || ver == 6
    then some (ticks_time (if ver == 6 then ticks_v6 b else ticks_v1 b ver))
    else if ver == 7
    then some (pos (ms / 1000), ms % 1000 * 1000)
    else none
