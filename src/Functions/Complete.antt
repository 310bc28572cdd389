-- ===== src/Functions/Complete.antt =====
-- While the operating system answers, the batches of versions 4 and 7 come back complete.
use fast_uuid.Common.{
  ℕ, zero, suc, max, ◌+◌, ◌-◌, ◌*◌, ◌/◌, ◌%◌, ◌^◌, ◌<◌, ◌≤◌, ◌≡◌, refl, ap, arith, false, List,
  ◌++◌, length, ltb, not, ◌||◌, ◌==◌, Bool-cases, inl, inr, Result, ok, err, if◌then◌else◌, bit_and,
}
use fast_uuid.Common.Bits.{bit_or_add}
use fast_uuid.State.{State, Os, M, continue}
use fast_uuid.Uuid.{Uuid}
use fast_uuid.Layout.{shl64}
use fast_uuid.Random.{rand, rand_u64}
use fast_uuid.Random.Valid.{IsValid}
use fast_uuid.Random.Live.{IsOk, continue-IsOk, Answers, rand-IsOk, rand_u64-IsOk}
use fast_uuid.Clock.{unix_nanos}
use fast_uuid.Clock.Live.{Ticks, Keeps-IsOk, unix_nanos-Keeps}
use fast_uuid.V7.Increase.{ReadNanos, unix_nanos-ReadNanos}
use fast_uuid.V7.{
  add_step, v7_increment, v7_start, time_key, random_step, randb_mask, keep_v7, BatchEnd, add_round,
  batch_rounds, batch_loop, return_array, end_batch, gen_v7_batch_n,
}
use fast_uuid.Functions.{chunk_uuids, v4_batch_loop, gen_v4_batch_n, v4_chunk}
use fast_uuid.Functions.Promises.{Fills, gen_v4_batch_n-Fills}

-- A call that returns a time key up to a bound.
abbrev Keyed : ℕ → Result (ℕ × ℕ) × State → Type 0
Keyed bound (ok (key, randb), t) = key ≤ bound
Keyed bound (err e, t) = ⊥

continue-Keyed :
    {A : Type 0} (bound : ℕ) (r : Result A × State) (f : A → M (ℕ × ℕ))
    → IsOk r
    → ((a : A) (t : State) → Keyed bound (f a t))
    → Keyed bound (continue r f)
continue-Keyed bound (ok a, t) f h k = k a t
continue-Keyed bound (err e, t) f h k = absurd h

add_step-Keyed :
    (key randb step : ℕ) (t : State)
    → key < 2 ^ 60 - 1
    → Keyed (key + 1) (add_step key randb step, t)
unfolding add_step
add_step-Keyed key randb step t h =
    let e : (key == 2 ^ 60 - 1) ≡ false = ground arith in
    elim (Bool-cases (ltb randb_mask ((randb + step) % 2 ^ 64))) [
      | inl f ↦ rw (f, e) (omega arith)
      | inr f ↦ rw f (omega arith)
    ]

-- The time key of the clock is far below its 60 bits.
time_key_low : (ns : ℕ) → ns < 2 ^ 64 → time_key ns < 2 ^ 57
unfolding time_key
time_key_low ns h =
    let sub = ns % 1000000 * 4096 % 2 ^ 64 / 1000000 in
    omega (
      arith,
      bit_or_add 12 (ns / 1000000) (shl64 (ns / 1000000) 12) sub (omega arith) (omega arith),
    )

-- What a batch leaves: `n` UUIDs and no exception.
abbrev Done : ℕ → BatchEnd × State → Type 0
Done n (b, t) = (length b.filled ≡ n) × (b.outcome ≡ ok tt)

-- The call returns `n` UUIDs.
abbrev pub Completes : ℕ → Result (List Uuid) × State → Type 0
Completes n r = (us : List Uuid) × (t : State) × (r ≡ (ok us, t)) × (length us ≡ n)

module _ (os : Os) (answers : Answers os) (ticks : Ticks os) where
  v7_increment-Keyed :
      (key randb : ℕ) (s : State) → key < 2 ^ 60 - 1 → Keyed (key + 1) (v7_increment os key randb s)
  unfolding v7_increment
  v7_increment-Keyed key randb s h =
      continue-Keyed (key + 1) (rand os 3 s) (λ r t. (add_step key randb (random_step r), t))
        (rand-IsOk os answers 3 s) (λ r t. add_step-Keyed key randb (random_step r) t h)

  Keyed-le : (a b : ℕ) (r : Result (ℕ × ℕ) × State) → a ≤ b → Keyed a r → Keyed b r
  Keyed-le a b (ok (k, x), t) h p = omega arith
  Keyed-le a b (err e, t) h p = p

  v7_start-Keyed :
      (bound key : ℕ) (s : State)
      → s.v7_key < 2 ^ 60 - 1
      → key ≤ bound
      → s.v7_key + 1 ≤ bound
      → Keyed bound (v7_start os key s)
  unfolding v7_start
  v7_start-Keyed bound key s h k l = elim (Bool-cases (not s.v7_initialized || ltb s.v7_key key)) [
    | inl e ↦ rw e (
        continue-Keyed bound (rand_u64 os s) (λ r t. (ok (key, bit_and r randb_mask), t))
          (rand_u64-IsOk os answers s) (λ r t. k))
    | inr e ↦ rw e (
        Keyed-le (s.v7_key + 1) bound (v7_increment os s.v7_key s.v7_randb s) l
          (v7_increment-Keyed s.v7_key s.v7_randb s h))
  ]

  add_round-Done :
      (n bound key randb : ℕ) (rest : ℕ → ℕ → State → BatchEnd × State) (r : Result (ℕ × ℕ) × State)
      → Keyed bound r
      → ((k x : ℕ) (t : State) → k ≤ bound → Done n (rest k x t))
      → Done (suc n) (add_round key randb rest r)
  unfolding add_round
  add_round-Done n bound key randb rest (ok (k, x), t) h d = let (e, o) = d k x t h in (ap suc e, o)
  add_round-Done n bound key randb rest (err e, t) h d = absurd h

  batch_rounds-Done :
      (n key randb : ℕ) (s : State) → key + n < 2 ^ 60 → Done n (batch_rounds os n key randb s)
  unfolding batch_rounds
  batch_rounds-Done zero key randb s h = (refl, refl)
  batch_rounds-Done (suc n) key randb s h =
      add_round-Done n (key + 1) key randb (batch_rounds os n) (v7_increment os key randb s)
        (v7_increment-Keyed key randb s (omega arith))
        (λ k x t le. batch_rounds-Done n k x t (omega arith))

  batch_loop-Done :
      (n key randb : ℕ) (s : State) → key + n ≤ 2 ^ 60 → Done n (batch_loop os n key randb s)
  unfolding batch_loop
  batch_loop-Done zero key randb s h = (refl, refl)
  batch_loop-Done (suc n) key randb s h =
      let (e, o) = batch_rounds-Done n key randb s (omega arith) in (ap suc e, o)

  end_batch-Completes : (n : ℕ) (r : BatchEnd × State) → Done n r → Completes n (end_batch r)
  unfolding end_batch return_array
  end_batch-Completes n (b, s) (e, o) = (b.filled, keep_v7 b.end_key b.end_randb s, rw o, e)

  started-Completes :
      (n bound : ℕ) (r : Result (ℕ × ℕ) × State)
      → Keyed bound r
      → bound + n ≤ 2 ^ 60
      → Completes n (continue r (λ (key, randb) t. end_batch (batch_loop os n key randb t)))
  started-Completes n bound (ok (k, x), t) h le =
      end_batch-Completes n (batch_loop os n k x t) (batch_loop-Done n k x t (omega arith))
  started-Completes n bound (err e, t) h le = absurd h

  read-Completes :
      (n : ℕ) (s : State) (r : Result ℕ × State)
      → IsOk r
      → ReadNanos s r
      → n < 2 ^ 32
      → s.v7_key + n < 2 ^ 60 - 1
      → Completes n (
          continue r (λ ns t.
            continue
              (v7_start os (time_key ns) t)
              (λ (key, randb) t'. end_batch (batch_loop os n key randb t'))))
  read-Completes n s (ok ns, t) h (below, e) hn k =
      let same : t.v7_key ≡ s.v7_key = ap (λ (x : State). x.v7_key) e in
      let bound = max (2 ^ 57) (s.v7_key + 1) in
      started-Completes n bound (v7_start os (time_key ns) t)
        (v7_start-Keyed bound (time_key ns) t (omega arith) (omega (arith, time_key_low ns below))
          (omega arith))
        (omega arith)
  read-Completes n s (err e, t) h g hn k = absurd h

  gen_v7_batch_n-Completes :
      (n : ℕ) (s : State)
      → n < 2 ^ 32
      → s.v7_key + n < 2 ^ 60 - 1
      → Completes n (gen_v7_batch_n os n s)
  unfolding gen_v7_batch_n
  gen_v7_batch_n-Completes n s hn h =
      read-Completes n s (unix_nanos os s)
        (Keeps-IsOk (unix_nanos os s) (unix_nanos-Keeps os ticks (λ t. Unit {0}) s tt))
        (unix_nanos-ReadNanos os s) hn h

  v4_batch_loop-IsOk : (fuel left : ℕ) (s : State) → IsOk (v4_batch_loop os fuel left s)
  unfolding v4_batch_loop
  v4_batch_loop-IsOk zero left s = tt
  v4_batch_loop-IsOk (suc fuel) left s = elim (Bool-cases (left == 0)) [
    | inl e ↦ rw e tt
    | inr e ↦
        let taken = if ltb v4_chunk left then v4_chunk else left in
        rw e (
          continue-IsOk (rand os (taken * 16) s)
            (λ chunk t.
              continue (v4_batch_loop os fuel (left - taken) t)
                (λ us t'. (ok (chunk_uuids taken chunk ++ us), t')))
            (rand-IsOk os answers (taken * 16) s)
            λ chunk t _.
              continue-IsOk (v4_batch_loop os fuel (left - taken) t)
                (λ us t'. (ok (chunk_uuids taken chunk ++ us), t'))
                (v4_batch_loop-IsOk fuel (left - taken) t) (λ us t' _. tt))
  ]

  Fills-Completes : (n : ℕ) (r : Result (List Uuid) × State) → IsOk r → Fills n r → Completes n r
  Fills-Completes n (ok us, t) h k = (us, t, refl, k.0)
  Fills-Completes n (err e, t) h k = absurd h

  -- While the generator of the operating system answers and its clock ticks, in a valid state the loops
  -- of the batches end with as many UUIDs as were asked for: of version 4, and for a count of 32 bits of
  -- version 7 while the time key is below 2^60 - 1 by more than the count.
  pub batches-Completes :
      (n : ℕ) (s : State)
      → IsValid s
      → n < 2 ^ 32
      → s.v7_key + n < 2 ^ 60 - 1
      → Completes n (gen_v4_batch_n os n s) × Completes n (gen_v7_batch_n os n s)
  unfolding gen_v4_batch_n
  batches-Completes n s v hn h = (
    Fills-Completes n (gen_v4_batch_n os n s) (v4_batch_loop-IsOk n n s)
        (gen_v4_batch_n-Fills os n s v),
    gen_v7_batch_n-Completes n s hn h,
  )
