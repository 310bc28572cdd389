-- ===== src/V7/Live.antt =====
-- While the operating system answers, version 7 returns.
use fast_uuid.Common.{
  bit_and, ℕ, ◌+◌, ◌-◌, ◌%◌, ◌^◌, ◌<◌, ◌≡◌, arith, false, ltb, not, ◌||◌, ◌==◌, Bool-cases, inl,
  inr, ok,
}
use fast_uuid.Common.Int.{pos}
use fast_uuid.State.{State, Os, continue}
use fast_uuid.Layout.{lay_v7}
use fast_uuid.Random.{rand, rand_u64}
use fast_uuid.Random.Live.{IsOk, continue-IsOk, Answers, rand-IsOk, rand_u64-IsOk}
use fast_uuid.Clock.{unix_nanos}
use fast_uuid.V7.{
  v7_at_ms, gen_v7_at, ms48_max, add_step, v7_increment, v7_start, gen_v7, time_key, random_step,
  randb_mask, lay_key, keep_v7,
}
use fast_uuid.Clock.Live.{Ticks, continue-Keeps, unix_nanos-Keeps}

module _ (os : Os) (answers : Answers os) (ticks : Ticks os) where
  add_step-IsOk :
      (key randb step : ℕ) (t : State) → key < 2 ^ 60 - 1 → IsOk (add_step key randb step, t)
  unfolding add_step
  add_step-IsOk key randb step t h =
      let e : (key == 2 ^ 60 - 1) ≡ false = ground arith in
      elim (Bool-cases (ltb randb_mask ((randb + step) % 2 ^ 64))) [
        | inl f ↦ rw (f, e) tt
        | inr f ↦ rw f tt
      ]

  v7_increment-IsOk :
      (key randb : ℕ) (s : State) → key < 2 ^ 60 - 1 → IsOk (v7_increment os key randb s)
  unfolding v7_increment
  v7_increment-IsOk key randb s h =
      continue-IsOk (rand os 3 s) (λ r t. (add_step key randb (random_step r), t))
        (rand-IsOk os answers 3 s) (λ r t _. add_step-IsOk key randb (random_step r) t h)

  v7_start-IsOk : (key : ℕ) (s : State) → s.v7_key < 2 ^ 60 - 1 → IsOk (v7_start os key s)
  unfolding v7_start
  v7_start-IsOk key s h = elim (Bool-cases (not s.v7_initialized || ltb s.v7_key key)) [
    | inl e ↦ rw e (continue-IsOk (rand_u64 os s) _ (rand_u64-IsOk os answers s) (λ r t _. tt))
    | inr e ↦ rw e (v7_increment-IsOk s.v7_key s.v7_randb s h)
  ]

  pub gen_v7-IsOk : (s : State) → s.v7_key < 2 ^ 60 - 1 → IsOk (gen_v7 os s)
  unfolding gen_v7
  gen_v7-IsOk s h =
      continue-Keeps (λ t. t.v7_key < 2 ^ 60 - 1) (unix_nanos os s)
        (λ ns t.
          continue (v7_start os (time_key ns) t)
            (λ (key, randb) t'. (ok (lay_key key randb), keep_v7 key randb t')))
        (unix_nanos-Keeps os ticks (λ t. t.v7_key < 2 ^ 60 - 1) s h)
        (λ ns t k.
          continue-IsOk (v7_start os (time_key ns) t)
            (λ (key, randb) t'. (ok (lay_key key randb), keep_v7 key randb t'))
            (v7_start-IsOk (time_key ns) t k) (λ a t' _. tt))

  pub v7_at_ms-IsOk : (ms : ℕ) (s : State) → ms < 2 ^ 48 → IsOk (v7_at_ms os (pos ms) s)
  unfolding v7_at_ms gen_v7_at
  v7_at_ms-IsOk ms s h =
      let e : ltb ms48_max ms ≡ false = ground arith in
      rw e (
        continue-IsOk (rand_u64 os s) (λ r t. (ok (lay_v7 ms 0 (bit_and r randb_mask)), t))
          (rand_u64-IsOk os answers s) (λ r t _. tt))
