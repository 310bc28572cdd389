-- ===== src/Tests/Processor.antt =====
-- The theorems on the AES backends and on the Windows clock applied to concrete inputs.
use fast_uuid.Common.{
  ℕ, ◌+◌, ◌-◌, ◌*◌, ◌%◌, ◌^◌, ◌≡◌, refl, arith, List, ◌++◌, take, replicate, All, IsByte, some,
  none,
}
use fast_uuid.Aes.{Fips, xor, shift_rows, sub_bytes, fips_cipher}
use fast_uuid.Aes.Ni.{AesNi, chosen_dwords, key_assist, aesni_ctr}
use fast_uuid.Aes.Armv8.{Armv8, armv8_ctr}
use fast_uuid.Aes.Backends.{aesni_ctr-fips, armv8_ctr-fips}
use fast_uuid.Ctr.{aes_ctr}
use fast_uuid.Clock.{nanos, windows_nanos}
use fast_uuid.Clock.Windows.{timespec, windows_nanos-nanos}
use fast_uuid.Tests.Params.{All-replicate}

-- A permutation of the bytes in place of the S-box, and columns that are not mixed.
abbrev tables : Fips
tables = record {
  sbox = λ x. (x * 7 + 99) % 256;
  mix_columns = λ s. s;
  sbox_byte = λ x. omega arith;
}

abbrev aes_ni : AesNi tables
aes_ni = record {
  mm_xor_si128 = xor;
  mm_slli_si128 = λ a n. replicate n 0 ++ take (16 - n) a;
  mm_shuffle_epi32 = chosen_dwords;
  mm_aeskeygenassist_si128 = key_assist tables;
  mm_aesenc_si128 = λ s k. xor (shift_rows (sub_bytes tables s)) k;
  mm_aesenclast_si128 = λ s k. xor (shift_rows (sub_bytes tables s)) k;
  xor_law = λ a b. refl;
  slli_law = λ a n. refl;
  shuffle_law = λ a imm. refl;
  keygenassist_law = λ a rcon. refl;
  aesenc_law = λ s k. refl;
  aesenclast_law = λ s k. refl;
}

abbrev armv8 : Armv8 tables
armv8 = record {
  veorq_u8 = xor;
  vaeseq_u8 = λ s k. shift_rows (sub_bytes tables (xor s k));
  vaesmcq_u8 = λ s. s;
  veor_law = λ a b. refl;
  vaese_law = λ s k. refl;
  vaesmc_law = λ s. refl;
}

abbrev key : List ℕ
key = replicate 32 3

abbrev counter : List ℕ
counter = replicate 16 255

key-bytes : All IsByte key
key-bytes = All-replicate 32 3 (omega arith)

aesni_ctr-fips_example :
    aesni_ctr aes_ni key counter 40 ≡ aes_ctr (fips_cipher tables) key counter 40
aesni_ctr-fips_example = aesni_ctr-fips aes_ni key counter 40 refl

armv8_ctr-fips_example :
    armv8_ctr armv8 key counter 40 ≡ aes_ctr (fips_cipher tables) key counter 40
armv8_ctr-fips_example = armv8_ctr-fips armv8 key counter 40 refl key-bytes

-- The first tick after 1970 that the low word of a FILETIME begins anew at.
abbrev filetime : ℕ × ℕ
filetime = (27111903, 0)

windows_nanos-nanos_example :
    windows_nanos none filetime ≡ nanos (some (timespec (27111903 * 2 ^ 32 + 0)))
windows_nanos-nanos_example = windows_nanos-nanos none filetime (omega arith) (omega arith)
