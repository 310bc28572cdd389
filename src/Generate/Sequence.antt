-- ===== src/Generate/Sequence.antt =====
-- Sequences of calls of versions 1 and 6, which share one mark, with other draws between them.
use fast_uuid.Common.{
  ℕ, ◌+◌, ◌^◌, ◌<◌, ◌≤◌, arith, Option, List, [], ◌∷◌, ◌++◌, map, All, Result, ok, err,
}
use mathlib.Core.List.{map-append}
use fast_uuid.Common.Int.{ℤ}
use fast_uuid.State.{State, Os, M, continue, continue_rule}
use fast_uuid.Uuid.{Uuid}
use fast_uuid.Random.{rand}
use fast_uuid.Random.Valid.{IsValid, Served, rand-Served}
use fast_uuid.V7.Order.{Between, Between-append}
use fast_uuid.Generate.{gen_v1_ex, gen_v6_ex}
use fast_uuid.Generate.Laid.{IsNodeArg}
use fast_uuid.Generate.Stamped.{ticks_of, Stamps, gen_v1_ex-Stamps, gen_v6_ex-Stamps}

-- A call with its node and clock sequence arguments, or another draw of random bytes.
pub data TimeCall : Type 0 where
  v1 : Option (List ℕ) → ℤ → TimeCall
  v6 : Option (List ℕ) → ℤ → TimeCall
  draw : ℕ → TimeCall

abbrev pub IsCall : TimeCall → Type 0
IsCall (v1 node clockseq) = IsNodeArg node
IsCall (v6 node clockseq) = IsNodeArg node
IsCall (draw n) = Unit {0}

-- What a call into the array b emits.
pub emit_time : Os → Uuid → TimeCall → M (List Uuid)
emit_time os b (v1 node clockseq) s =
    continue (gen_v1_ex os b node clockseq s) (λ u t. (ok (u ∷ []), t))
emit_time os b (v6 node clockseq) s =
    continue (gen_v6_ex os b node clockseq s) (λ u t. (ok (u ∷ []), t))
emit_time os b (draw n) s = continue (rand os n s) (λ _ t. (ok [], t))

emitted : Result (List Uuid) → List Uuid
emitted (ok us) = us
emitted (err e) = []

-- What a sequence of calls emits; an exception is caught, and the calls go on.
pub run_time : Os → Uuid → List TimeCall → State → List Uuid × State
unfolding emit_time emitted
run_time os b [] s = ([], s)
run_time os b (c ∷ cs) s =
    let (r, t) = emit_time os b c s in let (us, t') = run_time os b cs t in (emitted r ++ us, t')

-- What is emitted lies above the mark before it and up to the mark after it.
abbrev Climbs : State → Result (List Uuid) × State → Type 0
Climbs s (ok us, t) =
    Between (s.greg_last + 1) (map ticks_of us) (t.greg_last + 1)
    × (t.greg_last < 2 ^ 60)
    × IsValid t
Climbs s (err e, t) = (s.greg_last ≤ t.greg_last) × (t.greg_last < 2 ^ 60) × IsValid t

one-Climbs :
    (v : ℕ) (s : State) (r : Result Uuid × State)
    → Stamps v s r
    → Climbs s (continue r (λ u t. (ok (u ∷ []), t)))
one-Climbs v s (ok u, t) ((_, _, e, _), l, h, i) = ((omega arith, omega arith), h, i)
one-Climbs v s (err e, t) h = h

module _ (os : Os) (b : Uuid) where
  emit_time-Climbs :
      (c : TimeCall) (s : State)
      → IsValid s
      → s.greg_last < 2 ^ 60
      → IsCall c
      → Climbs s (emit_time os b c s)
  unfolding emit_time
  emit_time-Climbs (v1 node cs) s v h n =
      one-Climbs 1 s (gen_v1_ex os b node cs s) (gen_v1_ex-Stamps os b node cs s v h n)
  emit_time-Climbs (v6 node cs) s v h n =
      one-Climbs 6 s (gen_v6_ex os b node cs s) (gen_v6_ex-Stamps os b node cs s v h n)
  emit_time-Climbs (draw n) s v h _ =
      continue_rule (Served os n s) (Climbs s) (rand os n s) _ (rand-Served os n s v)
        (λ xs t (_, i, c). (omega (arith, c.greg_last_same), omega (arith, c.greg_last_same), i))
        (λ e t (i, c). (omega (arith, c.greg_last_same), omega (arith, c.greg_last_same), i))

  Between-lower : (lo mid hi : ℕ) (xs : List ℕ) → lo ≤ mid → Between mid xs hi → Between lo xs hi
  Between-lower lo mid hi [] h k = omega arith
  Between-lower lo mid hi (x ∷ xs) h k = (omega arith, k.1)

  step-Climbs :
      (s : State) (r : Result (List Uuid)) (t : State) (us : List Uuid) (hi : ℕ)
      → Climbs s (r, t)
      → (IsValid t → t.greg_last < 2 ^ 60 → Between (t.greg_last + 1) (map ticks_of us) hi)
      → Between (s.greg_last + 1) (map ticks_of (emitted r ++ us)) hi
  unfolding emitted
  step-Climbs s (ok vs) t us hi (g, l, v) h = rw map-append (
      Between-append (s.greg_last + 1) (t.greg_last + 1) hi (map ticks_of vs) (map ticks_of us) g
        (h v l))
  step-Climbs s (err e) t us hi (g, l, v) h =
      Between-lower (s.greg_last + 1) (t.greg_last + 1) hi (map ticks_of us) (omega arith) (h v l)

  -- In a valid state whose mark is below 2^60, whatever calls of versions 1 and 6 follow, with other
  -- draws between them and some of them failing, the 60-bit timestamps of the UUIDs that they emit
  -- increase strictly, above the mark before the calls and up to the mark after them.
  pub run_time-Between :
      (cs : List TimeCall) (s : State)
      → IsValid s
      → s.greg_last < 2 ^ 60
      → All IsCall cs
      → Between
          (s.greg_last + 1)
          (map ticks_of (run_time os b cs s).0)
          ((run_time os b cs s).1.greg_last + 1)
  unfolding run_time
  run_time-Between [] s v l h = omega arith
  run_time-Between (c ∷ cs) s v l h =
      let (r, t) = emit_time os b c s in
      step-Climbs s r t (run_time os b cs t).0 ((run_time os b cs t).1.greg_last + 1)
        (emit_time-Climbs c s v l h.0) (λ w k. run_time-Between cs t w k h.1)
