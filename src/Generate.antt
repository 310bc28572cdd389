-- ===== src/Generate.antt =====
-- fast_uuid.c, generators: versions 1, 2, 6 from the clock, 4 from random bytes, 3 and 5 from a
-- name, and 8 from given bytes. The array that a call fills is `b`, with what it held before.
pub mod Laid
pub mod Stamped
pub mod Dce
pub mod Sequence
pub mod Bytes
pub mod Live
use fast_uuid.Common.{
  ℕ, zero, suc, ◌+◌, ◌*◌, ◌/◌, ◌%◌, ◌^◌, Bool, true, false, Option, none, some, List, [], ◌∷◌, ◌++◌,
  get_or, take, length, ltb, if◌then◌else◌, bit_or, bit_and, Result, ok, err, Exception,
  invalid_argument,
}
use fast_uuid.Common.Int.{ℤ, pos, negsuc}
use fast_uuid.State.{State, Os, M, continue}
use fast_uuid.Uuid.{Uuid, of_list, to_list, set_ver_var}
use fast_uuid.Layout.{stamp_v1, stamp_v6, place_node, place_dce, shr}
use fast_uuid.Clock.{greg_now, greg_monotonic, v2_monotonic}
use fast_uuid.Random.{rand, xs_next}
use fast_uuid.Ctr.{le_bytes}

-- `rnode[0] |= 0x01`: the multicast bit of a random node.
unfoldable pub multicast : List ℕ → List ℕ
multicast [] = []
multicast (x ∷ xs) = bit_or x 0x01 ∷ xs

-- `((hi << 8) | lo) & 0x3fff`
abbrev pub clockseq_of : ℕ → ℕ → ℕ
clockseq_of hi lo = bit_and (bit_or (hi * 2 ^ 8) lo) 0x3fff

-- The clock sequence, drawn where the argument is negative.
unfoldable pub choose_clockseq : Os → ℤ → M ℕ
choose_clockseq os (pos cs) s = (ok cs, s)
choose_clockseq os (negsuc n) s =
    continue (rand os 2 s) (λ rc t. (ok (clockseq_of (get_or rc 0 0) (get_or rc 1 0)), t))

-- The node, drawn where there is none.
unfoldable pub choose_node : Os → Option (List ℕ) → M (List ℕ)
unfolding multicast
choose_node os (some node) s = (ok node, s)
choose_node os none s = continue (rand os 6 s) (λ r t. (ok (multicast r), t))

unfoldable pub lay_clockseq_node : Os → Uuid → Option (List ℕ) → ℤ → M Uuid
unfolding multicast choose_clockseq choose_node
lay_clockseq_node os b none (negsuc n) s = continue (rand os 8 s) (λ r t.
    (ok (place_node b (clockseq_of (get_or r 6 0) (get_or r 7 0)) (multicast (take 6 r))), t))
lay_clockseq_node os b node clockseq s =
    continue (choose_clockseq os clockseq s)
      (λ cs t. continue (choose_node os node t) (λ nd t'. (ok (place_node b cs nd), t')))

unfoldable pub lay_v1 : Os → Uuid → ℕ → Option (List ℕ) → ℤ → M Uuid
unfolding lay_clockseq_node
lay_v1 os b g node clockseq = lay_clockseq_node os (stamp_v1 b g) node clockseq

unfoldable pub lay_v6 : Os → Uuid → ℕ → Option (List ℕ) → ℤ → M Uuid
unfolding lay_clockseq_node
lay_v6 os b g node clockseq = lay_clockseq_node os (stamp_v6 b g) node clockseq

unfoldable pub gen_v1_ex : Os → Uuid → Option (List ℕ) → ℤ → M Uuid
unfolding lay_v1
gen_v1_ex os b node clockseq s =
    continue (greg_monotonic os s) (λ g t. lay_v1 os b g node clockseq t)

-- `fu_gen_v1` and `fu_gen_v6`, where -1 asks for a random clock sequence.
unfoldable pub gen_v1 : Os → Uuid → M Uuid
unfolding gen_v1_ex
gen_v1 os b = gen_v1_ex os b none (negsuc 0)

unfoldable pub gen_v6_ex : Os → Uuid → Option (List ℕ) → ℤ → M Uuid
unfolding lay_v6
gen_v6_ex os b node clockseq s =
    continue (greg_monotonic os s) (λ g t. lay_v6 os b g node clockseq t)

unfoldable pub gen_v6 : Os → Uuid → M Uuid
unfolding gen_v6_ex
gen_v6 os b = gen_v6_ex os b none (negsuc 0)

unfoldable pub gen_v2 : Os → Uuid → ℕ → ℕ → Option (List ℕ) → ℤ → Bool → M Uuid
unfolding lay_v1
gen_v2 os b local_id local_domain node clockseq monotonic s =
    continue (if monotonic then v2_monotonic os s else greg_now os s) (λ g t.
      continue (lay_v1 os b g node clockseq t)
        (λ u t'. (ok (place_dce u local_id local_domain), t')))

unfoldable pub gen_v4 : Os → M Uuid
gen_v4 os s = continue (rand os 16 s) (λ r t. (ok (set_ver_var (of_list r) 0x40), t))

-- `memcpy(b, &a, 8)` on a little-endian machine.
unfoldable pub gen_v4_fast : Os → M Uuid
gen_v4_fast os s = continue (xs_next os s) (λ a t.
    continue (xs_next os t)
      (λ c t'. (ok (set_ver_var (of_list (le_bytes 8 a ++ le_bytes 8 c)) 0x40), t')))

-- `FU_MAX_NAME_BYTES`
abbrev pub max_name_bytes : ℕ
max_name_bytes = 16 * 1024 * 1024

-- `fu_gen_v3` and `fu_gen_v5`: the digest of the namespace and the name, MD5 or SHA-1 of the engine,
-- under the version bits.
unfoldable pub gen_name_based : (List ℕ → List ℕ) → ℕ → Uuid → List ℕ → Result Uuid
gen_name_based digest ver_hi ns name =
    if ltb max_name_bytes (length name)
    then err (invalid_argument "name is too large (max 16777216 bytes)")
    else ok (set_ver_var (of_list (digest (to_list ns ++ name))) ver_hi)

unfoldable pub gen_v3 : (List ℕ → List ℕ) → Uuid → List ℕ → Result Uuid
unfolding gen_name_based
gen_v3 md5 = gen_name_based md5 0x30

unfoldable pub gen_v5 : (List ℕ → List ℕ) → Uuid → List ℕ → Result Uuid
unfolding gen_name_based
gen_v5 sha1 = gen_name_based sha1 0x50

unfoldable pub gen_v8 : List ℕ → Uuid
gen_v8 bytes = set_ver_var (of_list bytes) 0x80
