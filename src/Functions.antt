-- ===== src/Functions.antt =====
-- fast_uuid.c, procedural functions: the generators with a text or raw bytes as result, the batches
-- and random bytes.
pub mod Promises
pub mod Complete
use fast_uuid.Common.{
  ℕ, zero, suc, ◌+◌, ◌-◌, ◌*◌, ◌/◌, ◌%◌, Bool, true, false, not, ◌&&◌, Option, none, some, List, [],
  ◌∷◌, ◌++◌, map, take, drop, length, ltb, ◌==◌, if◌then◌else◌, Result, ok, err, Exception,
  invalid_argument, invalid_uuid_string,
}
use fast_uuid.Common.Int.{ℤ, pos, negsuc}
use fast_uuid.Uuid.{Uuid, of_list, to_list, set_ver_var}
use fast_uuid.Hex.{format36}
use fast_uuid.State.{State, Os, M, continue, rbuf_size}
use fast_uuid.Zend.{Zend}
use fast_uuid.Parse.{parse}
use fast_uuid.Random.{rand, rand_fill}
use fast_uuid.Args.{batch_count_arg}
use fast_uuid.Generate.{gen_v8}
use fast_uuid.V7.{v7_at_ms}
use fast_uuid.Methods.{checked, is_valid}

-- `fu_retval_uuid` and `fu_uuid_zstr`
unfoldable pub uuid_zstr : Bool → Uuid → List ℕ
uuid_zstr as_bytes b = if as_bytes then to_list b else format36 b

unfoldable pub fn_generate : (State → Result Uuid × State) → Bool → M (List ℕ)
fn_generate gen as_bytes s = continue (gen s) (λ u t. (ok (uuid_zstr as_bytes u), t))

unfoldable pub fn_v7_at : Os → ℤ → Bool → M (List ℕ)
fn_v7_at os ms as_bytes s = continue (v7_at_ms os ms s) (λ u t. (ok (uuid_zstr as_bytes u), t))

abbrev pub or_error : {A : Type 0} → Exception → Option A → Result A
or_error e none = err e
or_error e (some a) = ok a

abbrev pub and_then : {A B : Type 0} → Result A → (A → Result B) → Result B
and_then (ok a) f = f a
and_then (err e) f = err e

unfoldable pub fn_name_based :
    Zend → (Uuid → List ℕ → Result Uuid) → List ℕ → List ℕ → Bool → Result (List ℕ)
fn_name_based z gen ns name as_bytes =
    and_then (or_error (invalid_argument "Invalid namespace") (parse z ns))
      (λ n. and_then (gen n name) (λ u. ok (uuid_zstr as_bytes u)))

unfoldable pub fn_v8 : List ℕ → Bool → Result (List ℕ)
fn_v8 bytes as_bytes =
    if not (length bytes == 16)
    then err (invalid_argument "uuid8 requires 16 bytes")
    else ok (uuid_zstr as_bytes (gen_v8 bytes))

-- `FU_V4_CHUNK`
abbrev pub v4_chunk : ℕ
v4_chunk = 64

-- The inner loop: the UUIDs of a chunk of random bytes.
unfoldable pub chunk_uuids : ℕ → List ℕ → List Uuid
chunk_uuids zero chunk = []
chunk_uuids (suc n) chunk =
    set_ver_var (of_list (take 16 chunk)) 0x40 ∷ chunk_uuids n (drop 16 chunk)

-- `while (done < n)`, where `left` is n - done; every round adds a UUID at least.
unfoldable pub v4_batch_loop : Os → ℕ → ℕ → M (List Uuid)
unfolding chunk_uuids
v4_batch_loop os zero left s = (ok [], s)
v4_batch_loop os (suc fuel) left s =
    let taken = if ltb v4_chunk left then v4_chunk else left in
    let rest = continue (rand os (taken * 16) s) (λ chunk t.
      continue (v4_batch_loop os fuel (left - taken) t)
        (λ us t'. (ok (chunk_uuids taken chunk ++ us), t'))) in
    if left == 0 then (ok [], s) else rest

unfoldable pub gen_v4_batch_n : Os → ℕ → M (List Uuid)
unfolding v4_batch_loop
gen_v4_batch_n os n = v4_batch_loop os n n

unfoldable pub fn_batch : (ℕ → M (List Uuid)) → ℤ → Bool → M (List (List ℕ))
fn_batch gen count as_bytes =
    checked (batch_count_arg count)
      (λ n s. continue (gen n s) (λ us t. (ok (map (uuid_zstr as_bytes) us), t)))

unfoldable pub fn_to_bin : Zend → List ℕ → Result (List ℕ)
fn_to_bin z s =
    and_then (or_error (invalid_uuid_string "Invalid UUID") (parse z s)) (λ u. ok (to_list u))

unfoldable pub fn_from_bin : List ℕ → Result (List ℕ)
fn_from_bin s =
    if not (length s == 16)
    then err (invalid_argument "Expected 16 bytes")
    else ok (uuid_zstr false (of_list s))

unfoldable pub fn_is_valid : Zend → List ℕ → Bool
unfolding is_valid
fn_is_valid z s = is_valid z s

-- `FU_MAX_RANDOM_BYTES`
abbrev pub max_random_bytes : ℕ
max_random_bytes = 16 * 1024 * 1024

unfoldable pub fn_random_bytes : Os → ℤ → M (List ℕ)
fn_random_bytes os (negsuc n) s = (err (invalid_argument "length must be > 0"), s)
fn_random_bytes os (pos zero) s = (err (invalid_argument "length must be > 0"), s)
fn_random_bytes os (pos (suc m)) s =
    let n = suc m in
    if ltb max_random_bytes n
    then (err (invalid_argument "length is too large (max 16777216)"), s)
    else if ltb (rbuf_size / 2) n && ltb n rbuf_size
    then rand_fill os n s
    else rand os n s
