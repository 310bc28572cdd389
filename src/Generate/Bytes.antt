-- ===== src/Generate/Bytes.antt =====
-- Versions 3, 4, 5 and 8: the given bytes under the version and the variant.
use fast_uuid.Common.{
  ℕ, zero, suc, ◌/◌, if◌then◌else◌, ◌*◌, ◌/◌, ◌%◌, ◌^◌, ◌<◌, ◌≤◌, ◌≡◌, refl, arith, List, ◌++◌, All,
  IsByte, length, get_or-IsByte, Result, ok, err, invalid_argument, Bool-cases, inl, inr, ltb,
  ltb→lt,
}
use fast_uuid.Common.Bits.{version_nibble, variant_bits}
use fast_uuid.State.{State, Os, continue, continue_rule}
use fast_uuid.Uuid.{Uuid, IsBytes, of_list, to_list, set_ver_var}
use fast_uuid.Layout.Decode.{IsVersion}
use fast_uuid.Random.{rand, xs_next, seeded_or_zeroed, step_xoshiro, seed_xoshiro, zero_xoshiro}
use fast_uuid.Generate.Laid.{SameClock_trans}
use fast_uuid.Ctr.{le_bytes}
use fast_uuid.Random.Valid.{IsValid, SameClock, Served, rand-Served, All-append}
use fast_uuid.Generate.{gen_v4_fast, max_name_bytes, gen_v3, gen_v4, gen_v5, gen_v8, gen_name_based}

-- The bytes are the given ones outside the six bits of the version and the variant.
abbrev pub Carries : Uuid → Uuid → Type 0
Carries v u =
    (to_list (record u { b6 = v.b6; b8 = v.b8 }) ≡ to_list v)
    × (u.b6 % 16 ≡ v.b6 % 16)
    × (u.b8 % 64 ≡ v.b8 % 64)

-- A UUID of the version that carries the bytes.
abbrev pub IsMarked : ℕ → Uuid → Uuid → Type 0
IsMarked ver v u = IsBytes u × IsVersion ver u × Carries v u

pub mark-IsMarked :
    (v : Uuid) (ver : ℕ) → IsBytes v → ver < 16 → IsMarked ver v (set_ver_var v (ver * 16))
unfolding set_ver_var
mark-IsMarked v ver h k = (
  omega (arith, version_nibble v.b6 ver, variant_bits v.b8, h),
  omega (arith, version_nibble v.b6 ver, variant_bits v.b8),
  (refl, omega (arith, version_nibble v.b6 ver), omega (arith, variant_bits v.b8)),
)

pub of_list-IsBytes : (xs : List ℕ) → All IsByte xs → IsBytes (of_list xs)
of_list-IsBytes xs h = omega (
  arith,
  get_or-IsByte xs 0 h,
  get_or-IsByte xs 1 h,
  get_or-IsByte xs 2 h,
  get_or-IsByte xs 3 h,
  get_or-IsByte xs 4 h,
  get_or-IsByte xs 5 h,
  get_or-IsByte xs 6 h,
  get_or-IsByte xs 7 h,
  get_or-IsByte xs 8 h,
  get_or-IsByte xs 9 h,
  get_or-IsByte xs 10 h,
  get_or-IsByte xs 11 h,
  get_or-IsByte xs 12 h,
  get_or-IsByte xs 13 h,
  get_or-IsByte xs 14 h,
  get_or-IsByte xs 15 h,
)

-- What a call of version 4 ends with: a UUID that carries the sixteen bytes of the draw; and no
-- clock mark moves.
abbrev pub Draws4 : Os → State → Result Uuid × State → Type 0
Draws4 os s (ok u, t) =
    ((r : List ℕ) × (rand os 16 s ≡ (ok r, t)) × (length r ≡ 16) × IsMarked 4 (of_list r) u)
    × IsValid t
    × SameClock s t
Draws4 os s (err e, t) = (rand os 16 s ≡ (err e, t)) × IsValid t × SameClock s t

-- In a valid state, a version 4 call draws sixteen bytes. Where the draw gives bytes, the call
-- returns sixteen bytes of version 4 that carry them outside the version and the variant; where it
-- fails, the call fails in the same way. The state stays valid and no clock mark moves.
pub gen_v4-Draws4 : (os : Os) (s : State) → IsValid s → Draws4 os s (gen_v4 os s)
unfolding gen_v4
gen_v4-Draws4 os s v =
    continue_rule (λ x. (rand os 16 s ≡ x) × Served os 16 s x) (Draws4 os s) (rand os 16 s) _
      (refl, rand-Served os 16 s v)
      (λ r t (q, ((n, h), i, c)).
        ((r, q, n, mark-IsMarked (of_list r) 4 (of_list-IsBytes r h) (omega arith)), i, c))
      (λ e t (q, (i, c)). (q, i, c))

-- A name of up to 2^24 bytes gives the digest of the namespace and the name under the version;
-- a longer one is refused.
abbrev pub Names : (List ℕ → List ℕ) → ℕ → Uuid → List ℕ → Result Uuid → Type 0
Names digest ver ns name (ok u) =
    (length name ≤ 2 ^ 24) × IsMarked ver (of_list (digest (to_list ns ++ name))) u
Names digest ver ns name (err e) =
    (2 ^ 24 < length name) × (e ≡ invalid_argument "name is too large (max 16777216 bytes)")

module _ (digest : List ℕ → List ℕ) (bytes : (xs : List ℕ) → All IsByte (digest xs)) where
  gen_name_based-Names :
      (ver : ℕ) (ns : Uuid) (name : List ℕ)
      → ver < 16
      → Names digest ver ns name (gen_name_based digest (ver * 16) ns name)
  unfolding gen_name_based
  gen_name_based-Names ver ns name k = elim (Bool-cases (ltb max_name_bytes (length name))) [
    | inl e ↦ rw e (omega (arith, ltb→lt max_name_bytes (length name) e), refl)
    | inr e ↦ rw e (
      ground (arith, e),
      mark-IsMarked (of_list (digest (to_list ns ++ name))) ver
          (of_list-IsBytes (digest (to_list ns ++ name)) (bytes (to_list ns ++ name))) k,
    )
  ]

  -- For a digest of bytes, versions 3 and 5 of a name of up to 2^24 bytes are sixteen bytes of that
  -- version that carry the start of the digest of the namespace and the name; a longer name is
  -- refused.
  pub gen_v3-v5-Names :
      (ns : Uuid) (name : List ℕ)
      → Names digest 3 ns name (gen_v3 digest ns name)
        × Names digest 5 ns name (gen_v5 digest ns name)
  unfolding gen_v3 gen_v5
  gen_v3-v5-Names ns name =
      (gen_name_based-Names 3 ns name (omega arith), gen_name_based-Names 5 ns name (omega arith))

-- Version 8 of given bytes is sixteen bytes of version 8 that carry them outside the version and the
-- variant.
pub gen_v8-IsMarked :
    (bytes : List ℕ) → All IsByte bytes → IsMarked 8 (of_list bytes) (gen_v8 bytes)
unfolding gen_v8
gen_v8-IsMarked bytes h = mark-IsMarked (of_list bytes) 8 (of_list-IsBytes bytes h) (omega arith)

le_bytes-IsByte : (n x : ℕ) → All IsByte (le_bytes n x)
unfolding le_bytes
le_bytes-IsByte zero x = tt
le_bytes-IsByte (suc n) x = (omega arith, le_bytes-IsByte n (x / 256))

-- Version 4 from the generator that is not cryptographic: the bytes of two outputs in a row.
abbrev pub Draws4Fast : Os → State → Result Uuid × State → Type 0
Draws4Fast os s (ok u, t) =
    ((a : ℕ) × (c : ℕ) × (m : State) × (xs_next os s ≡ (ok a, m))
      × (xs_next os m ≡ (ok c, t))
      × IsMarked 4 (of_list (le_bytes 8 a ++ le_bytes 8 c)) u)
    × IsValid t
    × SameClock s t
Draws4Fast os s (err e, t) = IsValid t × SameClock s t

abbrev Stepped : {A : Type 0} → State → Result A × State → Type 0
Stepped s (ok x, t) = IsValid t × SameClock s t
Stepped s (err e, t) = IsValid t × SameClock s t

seeded_or_zeroed-Stepped :
    (os : Os) (s : State) (r : Result (List ℕ) × State)
    → Served os 32 s r
    → Stepped s (seeded_or_zeroed r)
unfolding seed_xoshiro zero_xoshiro
seeded_or_zeroed-Stepped os s (ok r, t) (_, i, c) = (ground (arith, i), ground (arith, c))
seeded_or_zeroed-Stepped os s (err e, t) (i, c) = (ground (arith, i), ground (arith, c))

seeded-Stepped :
    (os : Os) (s : State)
    → IsValid s
    → Stepped s (if s.prng_seeded then (ok tt, s) else seeded_or_zeroed (rand os 32 s))
seeded-Stepped os s v = elim (Bool-cases s.prng_seeded) [
  | inl e ↦ simp e (v, ground arith)
  | inr e ↦ simp e (seeded_or_zeroed-Stepped os s (rand os 32 s) (rand-Served os 32 s v))
]

xs_next-Stepped : (os : Os) (s : State) → IsValid s → Stepped s (xs_next os s)
unfolding xs_next step_xoshiro
xs_next-Stepped os s v =
    continue_rule (Stepped s) (Stepped s)
      (if s.prng_seeded then (ok tt, s) else seeded_or_zeroed (rand os 32 s)) _
      (seeded-Stepped os s v) (λ _ t (i, c). (ground (arith, i), ground (arith, c))) (λ e t p. p)

-- In a valid state, a fast version 4 call that returns has two outputs of the generator, the second
-- from the state that the first left, and gives sixteen bytes of version 4 that carry the bytes of
-- both, low byte first; and whether it returns or fails, the state stays valid and no clock mark
-- moves.
pub gen_v4_fast-Draws4Fast : (os : Os) (s : State) → IsValid s → Draws4Fast os s (gen_v4_fast os s)
unfolding gen_v4_fast
gen_v4_fast-Draws4Fast os s v =
    continue_rule (λ x. (xs_next os s ≡ x) × Stepped s x) (Draws4Fast os s) (xs_next os s) _
      (refl, xs_next-Stepped os s v) (λ a m (q, (i, c)). second a m q i c) (λ e t (q, p). p)
  where
    second :
        (a : ℕ) (m : State)
        → xs_next os s ≡ (ok a, m)
        → IsValid m
        → SameClock s m
        → Draws4Fast os s (
            continue
              (xs_next os m)
              (λ c t'. (ok (set_ver_var (of_list (le_bytes 8 a ++ le_bytes 8 c)) 0x40), t')))
    second a m q i c =
        continue_rule (λ x. (xs_next os m ≡ x) × Stepped m x) (Draws4Fast os s) (xs_next os m) _
          (refl, xs_next-Stepped os m i)
          (λ a' t (q', (i', c')). (
            (
              a,
              a',
              m,
              q,
              q',
              mark-IsMarked (of_list (le_bytes 8 a ++ le_bytes 8 a')) 4
                  (of_list-IsBytes (le_bytes 8 a ++ le_bytes 8 a') (
                    All-append (le_bytes 8 a) (le_bytes 8 a') (le_bytes-IsByte 8 a)
                      (le_bytes-IsByte 8 a')))
                  (omega arith),
            ),
            i',
            SameClock_trans s m t c c',
          ))
          (λ e t (q', (i', c')). (i', SameClock_trans s m t c c'))
