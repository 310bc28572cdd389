-- ===== src/V7/Increase.antt =====
-- The time key and the counter of version 7 grow from one UUID to the next.
use fast_uuid.Common.{
  ℕ, ◌+◌, ◌^◌, ◌<◌, ◌≤◌, ◌≡◌, refl, arith, Result, ok, err, true, Bool-cases, inl, inr, ltb, not,
  ◌||◌, false,
}
use fast_uuid.State.{State, Os, continue_rule}
use fast_uuid.Clock.{nanos, unix_nanos}
use fast_uuid.Random.{rand, rand_u64}
use fast_uuid.Random.Valid.{IsValid, SameClock, Served, rand-Served}
use fast_uuid.V7.Rank.{InFields, rank, mask_randb, add_step-rank, random_step_bounds, nanos_bound}
use fast_uuid.V7.{random_step, add_step, v7_increment, v7_start}

-- A reading of the clock changes nothing else.
abbrev pub read_clock : State → State
read_clock s = record s { reads = s.reads + 1 }

abbrev pub ReadNanos : State → Result ℕ × State → Type 0
ReadNanos s (ok ns, t) = (ns < 2 ^ 64) × (t ≡ read_clock s)
ReadNanos s (err e, t) = t ≡ read_clock s

read_nanos :
    (s : State) (r : Result ℕ)
    → ((ns : ℕ) → r ≡ ok ns → ns < 2 ^ 64)
    → ReadNanos s (r, read_clock s)
read_nanos s (ok ns) h = (h ns refl, refl)
read_nanos s (err e) h = refl

pub unix_nanos-ReadNanos : (os : Os) (s : State) → ReadNanos s (unix_nanos os s)
unfolding unix_nanos
unix_nanos-ReadNanos os s =
    read_nanos s (nanos (os.clock_gettime s.reads))
      λ ns. nanos_bound (os.clock_gettime s.reads) ns (os.clock_gettime_range s.reads)

-- The globals are valid, and what version 7 has left in them is in its fields.
pub record V7Valid (s : State) : Type 0 where
  pub random : IsValid s
  pub marked : s.v7_initialized ≡ true → InFields s.v7_key s.v7_randb

-- `t` follows `s` by a draw.
pub record Drawn (s t : State) : Type 0 where
  pub valid : IsValid t
  pub same : SameClock s t

tied_initialized :
    (s : State) (key : ℕ)
    → (not s.v7_initialized || ltb s.v7_key key) ≡ false
    → s.v7_initialized ≡ true
tied_initialized s key h = ground arith

fresh_above :
    (s : State) (key : ℕ)
    → (not s.v7_initialized || ltb s.v7_key key) ≡ true
    → s.v7_initialized ≡ true
    → s.v7_key < key
fresh_above s key h i = ground arith

abbrev pub DrawnBy : State → Result ℕ × State → Type 0
DrawnBy s r = Drawn s r.1

pub rand_u64-DrawnBy : (os : Os) (s : State) → IsValid s → DrawnBy s (rand_u64 os s)
unfolding rand_u64
rand_u64-DrawnBy os s v =
    continue_rule (Served os 8 s) (DrawnBy s) (rand os 8 s) _ (rand-Served os 8 s v)
      (λ xs t (b, i, c). record { valid = i; same = c })
      (λ e t (i, c). record { valid = i; same = c })

-- What a draw that version 7 makes ends with: the two numbers, above those of the globals.
abbrev pub Advances : State → (ℕ → ℕ → Type 0) → Result (ℕ × ℕ) × State → Type 0
Advances s Above (ok (k, r), t) = InFields k r × Above k r × Drawn s t
Advances s Above (err e, t) = Drawn s t

abbrev pub AboveMark : State → ℕ → ℕ → Type 0
AboveMark s k r = s.v7_initialized ≡ true → rank s.v7_key s.v7_randb < rank k r

by_step :
    (s t : State) (key randb step : ℕ) (o : Result (ℕ × ℕ))
    → InFields key randb
    → 1 ≤ step
    → step ≤ 2 ^ 24
    → Drawn s t
    → add_step key randb step ≡ o
    → Advances s (λ k r. rank key randb < rank k r) (o, t)
by_step s t key randb step (ok (k, r)) h lo hi d e =
    let (fits, grown) = add_step-rank key randb step k r h hi e in (fits, omega arith, d)
by_step s t key randb step (err x) h lo hi d e = d

weaken :
    (s : State) (r : Result (ℕ × ℕ) × State)
    → Advances s (λ k q. rank s.v7_key s.v7_randb < rank k q) r
    → Advances s (AboveMark s) r
weaken s (ok (k, q), t) (f, g, d) = (f, (λ _. g), d)
weaken s (err e, t) d = d

module _ (os : Os) where
  pub v7_increment-Advances :
      (key randb : ℕ) (s : State)
      → IsValid s
      → InFields key randb
      → Advances s (λ k r. rank key randb < rank k r) (v7_increment os key randb s)
  unfolding v7_increment
  v7_increment-Advances key randb s v h =
      continue_rule (Served os 3 s) (Advances s (λ k r. rank key randb < rank k r)) (rand os 3 s) _
        (rand-Served os 3 s v)
        (λ xs t (buffer, i, c).
          let (lo, hi) = random_step_bounds xs buffer.1 in
          by_step s t key randb (random_step xs) (add_step key randb (random_step xs)) h lo hi
            (record { valid = i; same = c }) refl)
        (λ e t (i, c). record { valid = i; same = c })

  pub v7_start-Advances :
      (key : ℕ) (s : State)
      → V7Valid s
      → key < 2 ^ 60
      → Advances s (AboveMark s) (v7_start os key s)
  unfolding v7_start rand_u64
  v7_start-Advances key s v h = elim (Bool-cases (not s.v7_initialized || ltb s.v7_key key)) [
    | inl fresh ↦ rw fresh (
        continue_rule (DrawnBy s) (Advances s (AboveMark s)) (rand_u64 os s) _
          (rand_u64-DrawnBy os s v.random)
          (λ x t d. (
            record { key_fits = h; randb_fits = omega (arith, mask_randb x) },
            (λ i. omega (arith, fresh_above s key fresh i, (v.marked i).randb_fits)),
            d,
          ))
          (λ e t d. d))
    | inr tied ↦ rw tied (
        weaken s (v7_increment os s.v7_key s.v7_randb s) (
          v7_increment-Advances s.v7_key s.v7_randb s v.random
            (v.marked (tied_initialized s key tied))))
  ]
