-- ===== src/Args.antt =====
-- fast_uuid.c, shared helpers: the arguments of the methods and functions, as the engine hands them
-- over, and the checks on them. Of a message with a number that is formatted, the format is kept.
use fast_uuid.Common.{
  ℕ, zero, suc, ◌%◌, ◌^◌, ◌<◌, ◌≡◌, All, Bool, true, not, ◌&&◌, ◌||◌, Option, none, some, List, [],
  ◌∷◌, length, get_or, ltb, ◌==◌, if◌then◌else◌, bit_and, Result, ok, err, Exception,
  invalid_argument,
}
use fast_uuid.Common.Int.{ℤ, pos, negsuc}
use fast_uuid.Decimal.Digits.{IsDigit, spelled}
use fast_uuid.Layout.{shr}
use fast_uuid.Parse.{read_bytes, bare_positions}
use fast_uuid.V7.{ms48_max}

-- An argument that is null, a string or an integer.
pub data StrOrLong : Type 0 where
  null : StrOrLong
  str : List ℕ → StrOrLong
  long : ℤ → StrOrLong

-- What the process and the C library provide; `none` is ERANGE, else the value and the number of
-- characters that were read. Of `strtoull`, that it reads a decimal number of 64 bits to its end.
pub record Process : Type 0 where
  pub getuid : ℕ
  pub getgid : ℕ
  pub strtoull : List ℕ → Option (ℕ × ℕ)
  pub strtoull_law :
      (s : List ℕ)
      → All IsDigit s
      → 0 < length s
      → spelled s 0 < 2 ^ 64
      → strtoull s ≡ some (spelled s 0, length s)

-- `fu_parse_node` of an integer, and of a string.
unfoldable pub parse_node_long : ℤ → Option (List ℕ)
parse_node_long (negsuc n) = none
parse_node_long (pos n) =
    if ltb ms48_max n
    then none
    else some (
        bit_and (shr n 40) 0xff
        ∷ bit_and (shr n 32) 0xff
        ∷ bit_and (shr n 24) 0xff
        ∷ bit_and (shr n 16) 0xff
        ∷ bit_and (shr n 8) 0xff
        ∷ bit_and n 0xff
        ∷ [])

unfoldable pub parse_node_str : List ℕ → Option (List ℕ)
parse_node_str s = if length s == 12 then read_bytes s (bare_positions 6 0) else none

unfoldable pub given_node : Option (List ℕ) → Result (Option (List ℕ))
given_node none = err (invalid_argument "Invalid node (expect 12-hex string or int)")
given_node (some node) = ok (some node)

unfoldable pub node_arg : StrOrLong → Result (Option (List ℕ))
unfolding given_node parse_node_str parse_node_long
node_arg null = ok none
node_arg (str s) = given_node (parse_node_str s)
node_arg (long n) = given_node (parse_node_long n)

unfoldable pub clockseq_arg : Option ℤ → Result ℤ
clockseq_arg none = ok (negsuc 0)
clockseq_arg (some (negsuc n)) = err (invalid_argument "clockSeq out of range (0..16383)")
clockseq_arg (some (pos n)) =
    if ltb 0x3fff n then err (invalid_argument "clockSeq out of range (0..16383)") else ok (pos n)

abbrev pub id_out_of_range : Exception
id_out_of_range = invalid_argument "localIdentifier out of range (0..4294967295)"

unfoldable pub all_digits : List ℕ → Bool
all_digits [] = true
all_digits (c ∷ cs) = not (ltb c b'0' || ltb b'9' c) && all_digits cs

-- The end of `fu_local_id_arg`, by what `strtoull` answers.
unfoldable pub id_of_number : ℕ → Option (ℕ × ℕ) → Result ℕ
id_of_number sl none = err id_out_of_range
id_of_number sl (some (value, end)) =
    if not (end == sl) || ltb 0xffffffff value then err id_out_of_range else ok (value % 2 ^ 32)

-- The POSIX branch, with the casts to `uint32_t`.
unfoldable pub local_id_arg : Process → ℕ → StrOrLong → Result ℕ
unfolding all_digits id_of_number
local_id_arg p local_domain null =
    if local_domain == 0 || local_domain == 1
    then ok (if local_domain == 1 then p.getgid % 2 ^ 32 else p.getuid % 2 ^ 32)
    else err (
        invalid_argument
          "localIdentifier is required for DCE domains other than PERSON (0) and GROUP (1)")
local_id_arg p local_domain (long (negsuc n)) = err id_out_of_range
local_id_arg p local_domain (long (pos n)) =
    if ltb 0xffffffff n then err id_out_of_range else ok (n % 2 ^ 32)
local_id_arg p local_domain (str s) =
    if length s == 0
    then err (invalid_argument "localIdentifier string must be a decimal number")
    else if ltb 1 (length s) && get_or s 0 0 == b'0'
    then err (invalid_argument "localIdentifier string must be a canonical decimal number")
    else if ltb 10 (length s)
    then err id_out_of_range
    else if not (all_digits s)
    then err (invalid_argument "localIdentifier string must be a decimal number")
    else id_of_number (length s) (p.strtoull s)

-- `FU_MAX_BATCH_COUNT`; the engine's `HT_MAX_SIZE` is larger on every platform.
abbrev pub max_batch_count : ℕ
max_batch_count = 100000

unfoldable pub batch_count_arg : ℤ → Result ℕ
batch_count_arg (negsuc n) = err (invalid_argument "count must be > 0")
batch_count_arg (pos zero) = err (invalid_argument "count must be > 0")
batch_count_arg (pos (suc n)) =
    if ltb max_batch_count (suc n)
    then err (invalid_argument "count is too large (max 100000)")
    else ok (suc n)
