-- ===== src/Random/Live.antt =====
-- While the operating system's generator answers, every draw returns.
use fast_uuid.Common.{
  ℕ, zero, suc, ◌+◌, ◌-◌, ◌≡◌, ◌≢◌, refl, none, some, Option, List, ltb, leb, not, ◌||◌, ◌==◌,
  Bool-cases, inl, inr, Result, ok, err, if◌then◌else◌,
}
use fast_uuid.State.{State, Os, M, continue, rbuf_size}
use fast_uuid.Random.{
  os_random, or_throw, reseed, drbg_round, drbg_chunk_step, drbg_loop, drbg_fill, rand_fill, serve,
  rand, aes_is_active, drbg_chunk, drbg_reseed_bytes, rand_u64, xs_next, seeded_or_zeroed,
}

-- The call returned.
abbrev pub IsOk {ℓ} : {A : Type ℓ} → Result A × State → Type 0
IsOk (ok a, t) = Unit {0}
IsOk (err e, t) = ⊥

pub IsOk-returned :
    {A : Type 0} (r : Result A × State) → IsOk r → (a : A) × (t : State) × (r ≡ (ok a, t))
IsOk-returned (ok a, t) h = (a, t, refl)
IsOk-returned (err e, t) h = absurd h

pub continue-IsOk :
    {A B : Type 0} (r : Result A × State) (f : A → M B)
    → IsOk r
    → ((a : A) (t : State) → r ≡ (ok a, t) → IsOk (f a t))
    → IsOk (continue r f)
continue-IsOk (ok a, t) f h k = k a t refl
continue-IsOk (err e, t) f h k = absurd h

-- The generator of the operating system answers every call.
abbrev pub Answers : Os → Type 0
Answers os = (draw n : ℕ) → os.random_bytes draw n ≢ none

or_throw-IsOk : (o : Option (List ℕ)) (s : State) → o ≢ none → IsOk (or_throw o s)
unfolding or_throw
or_throw-IsOk none s h = h refl
or_throw-IsOk (some xs) s h = tt

module _ (os : Os) (answers : Answers os) where
  os_random-IsOk : (n : ℕ) (s : State) → IsOk (os_random os n s)
  unfolding os_random
  os_random-IsOk n s = or_throw-IsOk (os.random_bytes s.draws n) _ (answers s.draws n)

  reseed-IsOk : (s : State) → IsOk (reseed os s)
  unfolding reseed
  reseed-IsOk s = elim (Bool-cases (not s.drbg_seeded || leb drbg_reseed_bytes s.drbg_since_seed)) [
    | inl e ↦ rw e (continue-IsOk (os_random os 48 s) _ (os_random-IsOk 48 s) (λ seed t _. tt))
    | inr e ↦ rw e tt
  ]

  drbg_round-IsOk :
      (taken : ℕ) (rest : M (List ℕ)) (s : State)
      → ((t : State) → IsOk (rest t))
      → IsOk (drbg_round os taken rest s)
  unfolding drbg_round drbg_chunk_step
  drbg_round-IsOk taken rest s h =
      continue-IsOk (reseed os s) _ (reseed-IsOk s)
        λ _ t _. continue-IsOk (rest (drbg_chunk_step os taken t).1) _ (h _) (λ ys t'' _. tt)

  drbg_loop-IsOk : (fuel n : ℕ) (s : State) → IsOk (drbg_loop os fuel n s)
  unfolding drbg_loop
  drbg_loop-IsOk zero n s = tt
  drbg_loop-IsOk (suc fuel) n s = elim (Bool-cases (n == 0)) [
    | inl e ↦ rw e tt
    | inr e ↦
        let taken = if ltb n drbg_chunk then n else drbg_chunk in
        rw e (
          drbg_round-IsOk taken (drbg_loop os fuel (n - taken)) s (drbg_loop-IsOk fuel (n - taken)))
  ]

  rand_fill-IsOk : (n : ℕ) (s : State) → IsOk (rand_fill os n s)
  unfolding rand_fill drbg_fill
  rand_fill-IsOk n s = elim (Bool-cases (aes_is_active s.aes_state)) [
    | inl e ↦ rw e (drbg_loop-IsOk n n s)
    | inr e ↦ rw e (os_random-IsOk n s)
  ]

  pub rand-IsOk : (n : ℕ) (s : State) → IsOk (rand os n s)
  unfolding rand serve
  rand-IsOk n s = elim (Bool-cases (ltb rbuf_size n)) [
    | inl e ↦ rw e (rand_fill-IsOk n s)
    | inr e ↦ elim (Bool-cases (ltb rbuf_size (s.rpos + n))) [
      | inl e' ↦
          rw (e, e')
            (continue-IsOk (rand_fill os rbuf_size s) _ (rand_fill-IsOk rbuf_size s)
              (λ buf t _. tt))
      | inr e' ↦ rw (e, e') tt
    ]
  ]

  pub rand_u64-IsOk : (s : State) → IsOk (rand_u64 os s)
  unfolding rand_u64
  rand_u64-IsOk s = continue-IsOk (rand os 8 s) _ (rand-IsOk 8 s) (λ r t _. tt)

  seeded_or_zeroed-IsOk : (r : Result (List ℕ) × State) → IsOk r → IsOk (seeded_or_zeroed r)
  seeded_or_zeroed-IsOk (ok r, t) h = tt
  seeded_or_zeroed-IsOk (err e, t) h = h

  seeding-IsOk :
      (s : State) → IsOk (if s.prng_seeded then (ok tt, s) else seeded_or_zeroed (rand os 32 s))
  seeding-IsOk s = elim (Bool-cases s.prng_seeded) [
    | inl e ↦ simp e tt
    | inr e ↦ simp e (seeded_or_zeroed-IsOk (rand os 32 s) (rand-IsOk 32 s))
  ]

  pub xs_next-IsOk : (s : State) → IsOk (xs_next os s)
  unfolding xs_next
  xs_next-IsOk s =
      continue-IsOk (if s.prng_seeded then (ok tt, s) else seeded_or_zeroed (rand os 32 s)) _
        (seeding-IsOk s) (λ _ t _. tt)
