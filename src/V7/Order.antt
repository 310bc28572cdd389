-- ===== src/V7/Order.antt =====
-- All that version 7 emits in one process or thread, by single calls and by batches, is strictly
-- increasing in the order of `memcmp`, whatever the clock does.
use fast_uuid.Common.{
  ℕ, zero, suc, sym, ap, ◌∙◌, ◌+◌, ◌<◌, ◌≤◌, ◌≡◌, arith, Result, ok, err, if◌then◌else◌, List, [],
  ◌∷◌, ◌++◌, map, Bool-cases, inl, inr,
}
use mathlib.Core.Path.{subst}
use native.Mathlib.Nat.{le_of_eq}
use fast_uuid.State.{State, Os, M, continue, continue_rule}
use fast_uuid.Uuid.{Uuid}
use fast_uuid.Uuid.Order.{value}
use fast_uuid.Random.Valid.{IsValid, SameClock}
use fast_uuid.Clock.{unix_nanos}
use fast_uuid.V7.{
  time_key, lay_key, keep_v7, v7_increment, v7_start, BatchEnd, add_round, batch_rounds, batch_loop,
  return_array, end_batch,
}
use fast_uuid.V7.Rank.{InFields, rank, lay_key_mono, time_key_bound}
use fast_uuid.V7.Increase.{
  V7Valid, Drawn, read_clock, Advances, AboveMark, ReadNanos, unix_nanos-ReadNanos,
  v7_increment-Advances, v7_start-Advances,
}

-- The numbers increase strictly, from `lo` on and below `hi`.
abbrev pub Between : ℕ → List ℕ → ℕ → Type 0
Between lo [] hi = lo ≤ hi
Between lo (x ∷ xs) hi = (lo ≤ x) × Between (x + 1) xs hi

pub Between-append :
    (lo mid hi : ℕ) (xs ys : List ℕ)
    → Between lo xs mid
    → Between mid ys hi
    → Between lo (xs ++ ys) hi
Between-append lo mid hi [] [] h k = omega arith
Between-append lo mid hi [] (y ∷ ys) h k = (omega arith, k.1)
Between-append lo mid hi (x ∷ xs) ys h k = (h.0, Between-append (x + 1) mid hi xs ys h.1 k)

-- The least 128-bit number that a later UUID may have.
abbrev pub above : ℕ → ℕ → ℕ
above key randb = value (lay_key key randb) + 1

abbrev pub floor : State → ℕ
floor s = if s.v7_initialized then above s.v7_key s.v7_randb else 0

abbrev pub values : List Uuid → List ℕ
values = map value

module _ (os : Os) where
  -- What the rounds of a batch leave.
  record Rounds (key randb : ℕ) (s : State) (b : BatchEnd) (t : State) : Type 0 where
    fits : InFields b.end_key b.end_randb
    grows : Between (above key randb) (values b.filled) (above b.end_key b.end_randb)
    valid : IsValid t

  add_round-Rounds :
      (key randb : ℕ) (s : State) (rest : ℕ → ℕ → State → BatchEnd × State)
      (r : Result (ℕ × ℕ) × State)
      → InFields key randb
      → ((k q : ℕ) (t : State)
          → IsValid t
          → InFields k q
          → Rounds k q t (rest k q t).0 (rest k q t).1)
      → Advances s (λ k q. rank key randb < rank k q) r
      → Rounds key randb s (add_round key randb rest r).0 (add_round key randb rest r).1
  unfolding add_round
  add_round-Rounds key randb s rest (ok (k, q), t) h ih (f, g, d) =
      let tail = ih k q t d.valid f in
      record {
        fits = tail.fits;
        grows = (omega (arith, lay_key_mono key randb k q h f g), tail.grows);
        valid = tail.valid;
      }
  add_round-Rounds key randb s rest (err e, t) h ih d = record {
    fits = h;
    grows = omega arith;
    valid = d.valid;
  }

  batch_rounds-Rounds :
      (n key randb : ℕ) (s : State)
      → IsValid s
      → InFields key randb
      → Rounds key randb s (batch_rounds os n key randb s).0 (batch_rounds os n key randb s).1
  unfolding batch_rounds
  batch_rounds-Rounds zero key randb s v h = record { fits = h; grows = omega arith; valid = v }
  batch_rounds-Rounds (suc n) key randb s v h =
      add_round-Rounds key randb s (batch_rounds os n) (v7_increment os key randb s) h
        (λ k q t i f. batch_rounds-Rounds n k q t i f) (v7_increment-Advances os key randb s v h)

-- How a call that emits UUIDs ends: what it emitted lies between the two marks, and after an
-- exception the mark is no lower.
abbrev pub Emits : State → Result (List Uuid) × State → Type 0
Emits s (ok us, t) = V7Valid t × Between (floor s) (values us) (floor t)
Emits s (err e, t) = V7Valid t × (floor s ≤ floor t)

pub floor_below :
    (s : State) (k r : ℕ)
    → V7Valid s
    → InFields k r
    → AboveMark s k r
    → floor s ≤ value (lay_key k r)
floor_below s k r v f g = elim (Bool-cases s.v7_initialized) [
  | inl i ↦ rw i (omega (arith, lay_key_mono s.v7_key s.v7_randb k r (v.marked i) f (g i)))
  | inr i ↦ rw i (omega arith)
]

pub floor_same : (s t : State) → SameClock s t → floor t ≡ floor s
floor_same s t c = rw (c.v7_initialized_same, c.v7_key_same, c.v7_randb_same)

pub Drawn-V7Valid : (s t : State) → V7Valid s → Drawn s t → V7Valid t
Drawn-V7Valid s t v d = record {
  random = d.valid;
  marked = λ i.
      let c = d.same in
      let f = v.marked (sym c.v7_initialized_same ∙ i) in
      record {
        key_fits = rw c.v7_key_same f.key_fits;
        randb_fits = rw c.v7_randb_same f.randb_fits;
      };
}

keep_v7-V7Valid : (k r : ℕ) (t : State) → IsValid t → InFields k r → V7Valid (keep_v7 k r t)
unfolding keep_v7
keep_v7-V7Valid k r t i f = record {
  random = record { buffer = i.buffer; position = i.position };
  marked = λ _. f;
}

Between-le : (lo hi : ℕ) (xs : List ℕ) → Between lo xs hi → lo ≤ hi
Between-le lo hi [] h = h
Between-le lo hi (x ∷ xs) h = omega (arith, Between-le (x + 1) hi xs h.1)

return_array-Emits :
    (s t : State) (o : Result (Unit {0})) (us : List Uuid)
    → V7Valid t
    → Between (floor s) (values us) (floor t)
    → Emits s (return_array o us t)
unfolding return_array
return_array-Emits s t (ok x) us v g = (v, g)
return_array-Emits s t (err e) us v g = (v, Between-le (floor s) (floor t) (values us) g)

read_clock-V7Valid : (s : State) → V7Valid s → V7Valid (read_clock s)
read_clock-V7Valid s v = record {
  random = record { buffer = v.random.buffer; position = v.random.position };
  marked = v.marked;
}

module _ (os : Os) where
  pub batch_loop-Rounds :
      (n k r : ℕ) (s : State)
      → IsValid s
      → InFields k r
      → (lo : ℕ) → lo ≤ value (lay_key k r)
      → let (b, t) = batch_loop os n k r s in
        InFields b.end_key b.end_randb
        × Between lo (values b.filled) (above b.end_key b.end_randb)
        × IsValid t
  unfolding batch_loop
  batch_loop-Rounds zero k r s v f lo h = (f, omega arith, v)
  batch_loop-Rounds (suc n) k r s v f lo h =
      let tail = batch_rounds-Rounds os n k r s v f in (tail.fits, (h, tail.grows), tail.valid)

  pub end_batch-Emits :
      (s : State) (b : BatchEnd) (t : State)
      → InFields b.end_key b.end_randb
      → Between (floor s) (values b.filled) (above b.end_key b.end_randb)
      → IsValid t
      → Emits s (end_batch (b, t))
  unfolding end_batch keep_v7
  end_batch-Emits s b t f g v =
      return_array-Emits s (keep_v7 b.end_key b.end_randb t) b.outcome b.filled
        (keep_v7-V7Valid b.end_key b.end_randb t v f) g

  pub one-Emits :
      (s t : State) (k r : ℕ)
      → V7Valid s
      → IsValid t
      → InFields k r
      → AboveMark s k r
      → Emits s (ok (lay_key k r ∷ []), keep_v7 k r t)
  unfolding keep_v7
  one-Emits s t k r v i f g = (keep_v7-V7Valid k r t i f, (floor_below s k r v f g, omega arith))

  -- The clock reading of a call, and its start, before the numbers are used.
  pub started-Emits :
      (s : State) (use_numbers : ℕ × ℕ → M (List Uuid))
      → V7Valid s
      → ((k r : ℕ) (t : State)
          → IsValid t
          → InFields k r
          → AboveMark s k r
          → Emits s (use_numbers (k, r) t))
      → Emits s
          (continue (unix_nanos os s) (λ ns t. continue (v7_start os (time_key ns) t) use_numbers))
  started-Emits s use_numbers v h =
      continue_rule (ReadNanos s) (Emits s) (unix_nanos os s) _ (unix_nanos-ReadNanos os s)
        (λ ns t (bound, read).
          let v' : V7Valid t = rw read (read_clock-V7Valid s v) in
          continue_rule (Advances t (AboveMark t)) (Emits s) (v7_start os (time_key ns) t)
            use_numbers (v7_start-Advances os (time_key ns) t v' (time_key_bound ns bound))
            (λ (k, r) t' (f, g, d). h k r t' d.valid f (subst (λ z. AboveMark z k r) read g))
            (λ e t' d.
              (Drawn-V7Valid t t' v' d, le_of_eq (sym (floor_same t t' d.same ∙ ap floor read)))))
        (λ e t read. (rw read (read_clock-V7Valid s v), le_of_eq (sym (ap floor read))))
