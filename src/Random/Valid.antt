-- ===== src/Random/Valid.antt =====
-- The invariant of the random state, and what a draw returns: as many bytes as asked for.
use fast_uuid.Common.{
  ℕ, zero, suc, ◌+◌, ◌-◌, ◌/◌, ◌≤◌, ◌≡◌, refl, ap, arith, List, [], ◌∷◌, ◌++◌, take, drop, length,
  length-append, length-take, length-drop, All, IsByte, Result, ok, err, Bool-cases, if◌then◌else◌,
  ltb, inl, inr, ◌==◌, Option, none, some,
}
use mathlib.Core.Path.{subst}
use fast_uuid.State.{State, Os, M, continue, rbuf_size}
use fast_uuid.Ctr.{Stream, add_one, aes_ctr}
use fast_uuid.Ctr.Keystream.{keystream, length-keystream, aes_ctr-plain}
use fast_uuid.Random.{
  os_random, or_throw, mix_seed, reseed, drbg_chunk_step, drbg_round, drbg_loop, drbg_fill,
  rand_fill, serve, rand, drbg_chunk, aes_is_active,
}

abbrev pub IsBuffer : ℕ → List ℕ → Type 0
IsBuffer n xs = (length xs ≡ n) × All IsByte xs

-- The buffer holds bytes, and the position stands in it.
pub record IsValid (s : State) : Type 0 where
  pub buffer : IsBuffer rbuf_size s.rbuf
  pub position : s.rpos ≤ rbuf_size

-- The marks of the clocks, which no draw touches.
pub record SameClock (s t : State) : Type 0 where
  pub v7_key_same : t.v7_key ≡ s.v7_key
  pub v7_randb_same : t.v7_randb ≡ s.v7_randb
  pub v7_initialized_same : t.v7_initialized ≡ s.v7_initialized
  pub greg_last_same : t.greg_last ≡ s.greg_last
  pub v2_last_same : t.v2_last ≡ s.v2_last
  pub reads_same : t.reads ≡ s.reads

-- What the unbuffered generators leave alone: the marks and the buffer.
pub record SameMarks (s t : State) : Type 0 where
  pub same_v7_key : t.v7_key ≡ s.v7_key
  pub same_v7_randb : t.v7_randb ≡ s.v7_randb
  pub same_v7_initialized : t.v7_initialized ≡ s.v7_initialized
  pub same_greg_last : t.greg_last ≡ s.greg_last
  pub same_v2_last : t.v2_last ≡ s.v2_last
  pub same_reads : t.reads ≡ s.reads
  pub same_buffer : t.rbuf ≡ s.rbuf
  pub same_position : t.rpos ≡ s.rpos

pub All-append : (xs ys : List ℕ) → All IsByte xs → All IsByte ys → All IsByte (xs ++ ys)
All-append [] ys h k = k
All-append (x ∷ xs) ys h k = (h.0, All-append xs ys h.1 k)

pub All-take : (n : ℕ) (xs : List ℕ) → All IsByte xs → All IsByte (take n xs)
All-take zero xs h = tt
All-take (suc n) [] h = tt
All-take (suc n) (x ∷ xs) h = (h.0, All-take n xs h.1)

pub All-drop : (n : ℕ) (xs : List ℕ) → All IsByte xs → All IsByte (drop n xs)
All-drop zero xs h = h
All-drop (suc n) [] h = tt
All-drop (suc n) (x ∷ xs) h = All-drop n xs h.1

kept : {s t : State} → IsValid s → SameMarks s t → IsValid t
kept v m = ground arith

clock : {s t : State} → SameMarks s t → SameClock s t
clock m = ground arith

abbrev value_or : List ℕ → Result (List ℕ) → List ℕ
value_or d (ok xs) = xs
value_or d (err e) = d

same_draws : (s : State) → SameMarks s (record s { draws = s.draws + 1 })
same_draws s = ground arith

same_stream :
    (s : State) (n : ℕ) (r : Stream)
    → SameMarks s
        (record s { drbg_key = r.key; drbg_ctr = r.ctr; drbg_since_seed = s.drbg_since_seed + n })
same_stream s n r = ground arith

module _ (os : Os) where
  keystream-IsByte : (n : ℕ) (key c : List ℕ) → All IsByte (keystream os.aes n key c)
  unfolding keystream
  keystream-IsByte zero key c = tt
  keystream-IsByte (suc n) key c =
      All-append (os.aes key c) (keystream os.aes n key (add_one c)) (os.aes_size key c).1
        (keystream-IsByte n key (add_one c))

  -- One call of the keystream writes as many bytes as asked for.
  aes_ctr-IsBuffer : (key c : List ℕ) (n : ℕ) → IsBuffer n (aes_ctr os.aes key c n).out
  aes_ctr-IsBuffer key c n =
      rw (aes_ctr-plain os.aes (λ k b. (os.aes_size k b).0) key c n)
        (out_size, All-take n _ (keystream-IsByte ((n + 15) / 16) key c))
    where
      out_size : length (take n (keystream os.aes ((n + 15) / 16) key c)) ≡ n
      out_size = omega (
        arith,
        length-take n (keystream os.aes ((n + 15) / 16) key c),
        length-keystream os.aes (λ k b. (os.aes_size k b).0) ((n + 15) / 16) key c,
      )

  -- What a draw of `n` bytes does, however it ends.
  abbrev pub Draws : ℕ → State → Result (List ℕ) × State → Type 0
  Draws n s (ok xs, t) = IsBuffer n xs × SameMarks s t
  Draws n s (err e, t) = SameMarks s t

  SameMarks-trans : {s t u : State} → SameMarks s t → SameMarks t u → SameMarks s u
  SameMarks-trans h k = ground arith

  -- A call that keeps the marks, and what follows it.
  continue-Draws :
      {A : Type 0} (n : ℕ) (s : State) (r : Result A × State) (f : A → M (List ℕ))
      → SameMarks s r.1
      → ((a : A) → r ≡ (ok a, r.1) → Draws n s (f a r.1))
      → Draws n s (continue r f)
  continue-Draws n s (ok a, t) f h k = k a refl
  continue-Draws n s (err e, t) f h k = h

  Draws-marks : (n : ℕ) (s : State) (r : Result (List ℕ) × State) → Draws n s r → SameMarks s r.1
  Draws-marks n s (ok xs, t) h = h.1
  Draws-marks n s (err e, t) h = h

  Draws-IsBuffer :
      (n : ℕ) (s : State) (r : Result (List ℕ) × State) (xs : List ℕ)
      → Draws n s r
      → r ≡ (ok xs, r.1)
      → IsBuffer n xs
  Draws-IsBuffer n s (ok ys, t) xs h e =
      let same : ys ≡ xs = ap (λ (q : Result (List ℕ) × State). value_or ys q.0) e in
      subst (IsBuffer n) same h.0
  Draws-IsBuffer n s (err x, t) xs h e = absurd (cc)

  or_throw-Draws :
      (n : ℕ) (s t : State) (o : Option (List ℕ))
      → SameMarks s t
      → ((xs : List ℕ) → o ≡ some xs → IsBuffer n xs)
      → Draws n s (or_throw o t)
  unfolding or_throw
  or_throw-Draws n s t none m h = m
  or_throw-Draws n s t (some xs) m h = (h xs refl, m)

  os_random-Draws : (n : ℕ) (s : State) → Draws n s (os_random os n s)
  unfolding os_random
  os_random-Draws n s =
      or_throw-Draws n s (record s { draws = s.draws + 1 }) (os.random_bytes s.draws n)
        (same_draws s) (os.random_bytes_size s.draws n)

  reseed-SameMarks : (s : State) → SameMarks s (reseed os s).1
  unfolding reseed os_random mix_seed
  reseed-SameMarks s = ground arith

  drbg_round-Draws :
      (taken left : ℕ) (rest : M (List ℕ)) (s : State)
      → ((t : State) → Draws left t (rest t))
      → Draws (taken + left) s (drbg_round os taken rest s)
  unfolding drbg_round drbg_chunk_step
  drbg_round-Draws taken left rest s h =
      continue-Draws (taken + left) s (reseed os s) _ (reseed-SameMarks s) λ _ _.
        let t = (reseed os s).1 in
        let stream = aes_ctr os.aes t.drbg_key t.drbg_ctr taken in
        let t' = (drbg_chunk_step os taken t).1 in
        continue-Draws (taken + left) s (rest t') _
          (SameMarks-trans (reseed-SameMarks s)
            (SameMarks-trans (same_stream t taken stream) (Draws-marks left t' (rest t') (h t'))))
          (λ ys e.
            let buffer = Draws-IsBuffer left t' (rest t') ys (h t') e in
            let (size, bytes) = aes_ctr-IsBuffer t.drbg_key t.drbg_ctr taken in
            (
              (omega (arith, length-append stream.out ys), All-append stream.out ys bytes buffer.1),
              SameMarks-trans (reseed-SameMarks s) (
                  SameMarks-trans (same_stream t taken stream)
                    (Draws-marks left t' (rest t') (h t'))),
            ))

  drbg_loop-Draws : (fuel n : ℕ) (s : State) → n ≤ fuel → Draws n s (drbg_loop os fuel n s)
  unfolding drbg_loop
  drbg_loop-Draws zero n s h = ((omega arith, tt), ground arith)
  drbg_loop-Draws (suc fuel) n s h = elim (Bool-cases (n == 0)) [
    | inl done ↦ rw done ((ground arith, tt), ground arith)
    | inr more ↦
        let taken = if ltb n drbg_chunk then n else drbg_chunk in
        let parts : taken + (n - taken) ≡ n = ground arith in
        let less : n - taken ≤ fuel = ground arith in
        rw more (
          subst (λ m. Draws m s (drbg_round os taken (drbg_loop os fuel (n - taken)) s)) parts
            (drbg_round-Draws taken (n - taken) (drbg_loop os fuel (n - taken)) s
              (λ t. drbg_loop-Draws fuel (n - taken) t less)))
  ]

  pub rand_fill-Draws : (n : ℕ) (s : State) → Draws n s (rand_fill os n s)
  unfolding rand_fill drbg_fill
  rand_fill-Draws n s = elim (Bool-cases (aes_is_active s.aes_state)) [
    | inl a ↦ rw a (drbg_loop-Draws n n s (omega arith))
    | inr a ↦ rw a (os_random-Draws n s)
  ]

  -- What a buffered draw does: the state stays valid, however it ends.
  abbrev pub Served : ℕ → State → Result (List ℕ) × State → Type 0
  Served n s (ok xs, t) = IsBuffer n xs × IsValid t × SameClock s t
  Served n s (err e, t) = IsValid t × SameClock s t

  pub Draws-Served :
      (n : ℕ) (s : State) (r : Result (List ℕ) × State) → IsValid s → Draws n s r → Served n s r
  Draws-Served n s (ok xs, t) v d = (d.0, kept v d.1, clock d.1)
  Draws-Served n s (err e, t) v d = (kept v d, clock d)

  serve-Served :
      (n : ℕ) (s t : State)
      → IsValid t
      → SameClock s t
      → t.rpos + n ≤ rbuf_size
      → Served n s (serve n t)
  unfolding serve
  serve-Served n s t v c h = (
    (
      omega (arith, length-take n (drop t.rpos t.rbuf), length-drop t.rpos t.rbuf, v.buffer.0),
      All-take n (drop t.rpos t.rbuf) (All-drop t.rpos t.rbuf v.buffer.1),
    ),
    record { buffer = v.buffer; position = h },
    ground arith,
  )

  refill-Served :
      (n : ℕ) (s : State) (r : Result (List ℕ) × State)
      → IsValid s
      → n ≤ rbuf_size
      → Draws rbuf_size s r
      → Served n s (continue r (λ buf t. serve n (record t { rbuf = buf; rpos = 0 })))
  refill-Served n s (ok buf, t) v h d =
      serve-Served n s (record t { rbuf = buf; rpos = 0 })
        (record { buffer = d.0; position = omega arith }) (ground arith) (omega arith)
  refill-Served n s (err e, t) v h d = (kept v d, clock d)

  -- In a valid state, a draw of `n` bytes ends in a valid state with the marks of the clocks as they
  -- were and, unless it fails, gives `n` bytes.
  pub rand-Served : (n : ℕ) (s : State) → IsValid s → Served n s (rand os n s)
  unfolding rand
  rand-Served n s v = elim (Bool-cases (ltb rbuf_size n)) [
    | inl large ↦ rw large (Draws-Served n s (rand_fill os n s) v (rand_fill-Draws n s))
    | inr small ↦ elim (Bool-cases (ltb rbuf_size (s.rpos + n))) [
      | inl empty ↦
          rw (small, empty)
            (refill-Served n s (rand_fill os rbuf_size s) v (ground arith)
              (rand_fill-Draws rbuf_size s))
      | inr stocked ↦ rw (small, stocked) (serve-Served n s s v (ground arith) (ground arith))
    ]
  ]
