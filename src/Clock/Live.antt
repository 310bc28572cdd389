-- ===== src/Clock/Live.antt =====
-- While the clock of the operating system ticks, reading it returns.
use fast_uuid.Common.{
  ℕ, ◌+◌, ◌-◌, ◌*◌, ◌/◌, ◌^◌, ◌<◌, ◌≡◌, arith, false, some, ltb, leb, ◌==◌, Bool-cases, inl, inr,
  Result, ok, err,
}
use fast_uuid.Common.Int.{pos}
use fast_uuid.State.{State, Os, M, continue}
use fast_uuid.Layout.{shr, greg_unix_epoch}
use fast_uuid.Random.Live.{IsOk}
use fast_uuid.Clock.{
  nanos, unix_nanos, greg_now, advance_greg, greg_monotonic, advance_v2, v2_monotonic,
}

-- Every reading of the clock gives a time between 1970 and the last second whose nanoseconds fit.
abbrev pub Ticks : Os → Type 0
Ticks os =
    (reading : ℕ)
    → (sec : ℕ) × (nsec : ℕ) × (os.clock_gettime reading ≡ some (pos sec, nsec))
      × (sec < 18446744073)

-- A call that returns, and keeps a fact about the state.
abbrev pub Keeps : {A : Type 0} → (State → Type 0) → Result A × State → Type 0
Keeps P (ok a, t) = P t
Keeps P (err e, t) = ⊥

pub Keeps-IsOk : {A : Type 0} (r : Result A × State) → Keeps (λ t. Unit {0}) r → IsOk r
Keeps-IsOk (ok a, t) h = tt
Keeps-IsOk (err e, t) h = h

pub continue-Keeps :
    {A B : Type 0} (P : State → Type 0) (r : Result A × State) (f : A → M B)
    → Keeps P r
    → ((a : A) (t : State) → P t → IsOk (f a t))
    → IsOk (continue r f)
continue-Keeps P (ok a, t) f h k = k a t h
continue-Keeps P (err e, t) f h k = absurd h

module _ (os : Os) (ticks : Ticks os) where
  nanos-some :
      (sec nsec : ℕ)
      → sec < 18446744073
      → nsec < 1000000000
      → nanos (some (pos sec, nsec)) ≡ ok (sec * 1000000000 + nsec)
  unfolding nanos
  nanos-some sec nsec h k =
      let e : ltb ((2 ^ 64 - 1 - nsec) / 1000000000) sec ≡ false = ground arith in rw e

  -- Reading the clock returns, and moves no mark.
  pub unix_nanos-Keeps :
      (P : State → Type 0) (s : State)
      → P (record s { reads = s.reads + 1 })
      → Keeps P (unix_nanos os s)
  unfolding unix_nanos
  unix_nanos-Keeps P s h =
      let (sec, nsec, e, k) = ticks s.reads in
      rw (e, nanos-some sec nsec k (os.clock_gettime_range s.reads (pos sec) nsec e)) h

  pub greg_now-Keeps :
      (P : State → Type 0) (s : State)
      → P (record s { reads = s.reads + 1 })
      → Keeps P (greg_now os s)
  unfolding greg_now
  greg_now-Keeps P s h = passed (unix_nanos os s) (unix_nanos-Keeps P s h)
    where
      passed :
          (r : Result ℕ × State)
          → Keeps P r
          → Keeps P (continue r (λ ns t. (ok (ns / 100 + greg_unix_epoch), t)))
      passed (ok ns, t) k = k
      passed (err e, t) k = k

  advance_greg-IsOk : (g : ℕ) (s : State) → s.greg_last < 2 ^ 60 - 1 → IsOk (advance_greg g s)
  unfolding advance_greg
  advance_greg-IsOk g s h =
      let e : (s.greg_last == 2 ^ 60 - 1) ≡ false = ground arith in
      elim (Bool-cases (leb g s.greg_last)) [ inl f ↦ rw (f, e) tt | inr f ↦ rw f tt ]

  advance_v2-IsOk : (g : ℕ) (s : State) → s.v2_last < 2 ^ 28 - 1 → IsOk (advance_v2 g s)
  unfolding advance_v2
  advance_v2-IsOk g s h =
      let e : (s.v2_last == 2 ^ 28 - 1) ≡ false = ground arith in
      elim (Bool-cases (leb (shr g 32) s.v2_last)) [ inl f ↦ rw (f, e) tt | inr f ↦ rw f tt ]

  pub greg_monotonic-IsOk : (s : State) → s.greg_last < 2 ^ 60 - 1 → IsOk (greg_monotonic os s)
  unfolding greg_monotonic
  greg_monotonic-IsOk s h =
      continue-Keeps (λ t. t.greg_last < 2 ^ 60 - 1) (greg_now os s) advance_greg
        (greg_now-Keeps (λ t. t.greg_last < 2 ^ 60 - 1) s h) advance_greg-IsOk

  pub v2_monotonic-IsOk : (s : State) → s.v2_last < 2 ^ 28 - 1 → IsOk (v2_monotonic os s)
  unfolding v2_monotonic
  v2_monotonic-IsOk s h =
      continue-Keeps (λ t. t.v2_last < 2 ^ 28 - 1) (greg_now os s) advance_v2
        (greg_now-Keeps (λ t. t.v2_last < 2 ^ 28 - 1) s h) advance_v2-IsOk
