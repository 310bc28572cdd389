-- ===== src/Random/Fork.antt =====
-- `fu_atfork_child`: a forked child hands out nothing that its parent knows.
use fast_uuid.Common.{
  ℕ, zero, suc, ◌+◌, ◌-◌, ◌<◌, ◌≡◌, refl, arith, true, false, none, List, ltb, ◌==◌, if◌then◌else◌,
  err, random_failure, Bool-cases, inl, inr,
}
use fast_uuid.State.{State, Os, M, rbuf_size}
use fast_uuid.Random.{
  os_random, or_throw, reseed, drbg_round, drbg_loop, drbg_fill, rand_fill, rand, atfork_child,
  aes_is_active, drbg_chunk,
}

-- The child after a call of the OS generator.
abbrev asked : State → State
asked s = record (atfork_child s) { draws = s.draws + 1 }

-- Whatever runs in a child after the fork, its result and its state depend on its parent's state only
-- by the AES backend and by how far the operating system's generator and clock have been read.
pub atfork_child_independent :
    {A : Type 0} (m : M A) (s t : State)
    → s.aes_state ≡ t.aes_state
    → s.draws ≡ t.draws
    → s.reads ≡ t.reads
    → m (atfork_child s) ≡ m (atfork_child t)
unfolding atfork_child
atfork_child_independent m s t a d r = rw (a, d, r) refl

module _ (os : Os) (s : State) (fails : (n : ℕ) → os.random_bytes s.draws n ≡ none) where
  os_random_fails : (n : ℕ) → os_random os n (atfork_child s) ≡ (err random_failure, asked s)
  unfolding os_random or_throw atfork_child
  os_random_fails n = rw (fails n) refl

  reseed_fails : reseed os (atfork_child s) ≡ (err random_failure, asked s)
  unfolding reseed os_random or_throw atfork_child
  reseed_fails = rw (fails 48) refl

  drbg_round_fails :
      (taken : ℕ) (rest : M (List ℕ))
      → drbg_round os taken rest (atfork_child s) ≡ (err random_failure, asked s)
  unfolding drbg_round
  drbg_round_fails taken rest = rw reseed_fails refl

  drbg_fill_fails :
      (n : ℕ) → 0 < n → drbg_fill os n (atfork_child s) ≡ (err random_failure, asked s)
  unfolding drbg_fill drbg_loop
  drbg_fill_fails zero h = absurd (omega (arith, h))
  drbg_fill_fails (suc n) h =
      let nonzero : (suc n == 0) ≡ false = ground arith in
      let taken = if ltb (suc n) drbg_chunk then suc n else drbg_chunk in
      rw nonzero (drbg_round_fails taken (drbg_loop os n (suc n - taken)))

  all_served : (n : ℕ) → 0 < n → ltb rbuf_size ((atfork_child s).rpos + n) ≡ true
  unfolding atfork_child
  all_served n h = ground (arith, h)

  rand_fill_fails :
      (n : ℕ) → 0 < n → rand_fill os n (atfork_child s) ≡ (err random_failure, asked s)
  unfolding rand_fill
  rand_fill_fails n h = elim (Bool-cases (aes_is_active (atfork_child s).aes_state)) [
    | inl e ↦ rw e (drbg_fill_fails n h)
    | inr e ↦ rw e (os_random_fails n)
  ]

  -- While the operating system's generator fails, a child after a fork is refused every random byte
  -- that it asks for: of the parent's buffer and keys nothing is left to serve from.
  pub rand-atfork_child :
      (n : ℕ) → 0 < n → rand os n (atfork_child s) ≡ (err random_failure, asked s)
  unfolding rand
  rand-atfork_child n h = elim (Bool-cases (ltb rbuf_size n)) [
    | inl e ↦ rw e (rand_fill_fails n h)
    | inr e ↦ rw (e, all_served n h) (rw (rand_fill_fails rbuf_size (omega arith)) refl)
  ]
