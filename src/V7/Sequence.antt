-- ===== src/V7/Sequence.antt =====
-- Sequences of calls: all that version 7 emits in one process or thread, by single calls and by batches, is strictly
-- increasing in the order of `memcmp`, whatever the clock does.
use fast_uuid.Common.{ℕ, sym, ◌≤◌, arith, Result, ok, err, List, [], ◌∷◌, ◌++◌}
use mathlib.Core.List.{map-append}
use native.Mathlib.Nat.{le_of_eq}
use fast_uuid.State.{State, Os, M, continue, continue_rule, continue_assoc}
use fast_uuid.Uuid.{Uuid}
use fast_uuid.Random.{rand}
use fast_uuid.Random.Valid.{Served, rand-Served}
use fast_uuid.V7.{lay_key, keep_v7, gen_v7, batch_loop, end_batch, gen_v7_batch_n}
use fast_uuid.V7.Order.{
  Between, Between-append, floor, values, Emits, Drawn-V7Valid, floor_below, floor_same,
  batch_loop-Rounds, end_batch-Emits, one-Emits, started-Emits,
}
use fast_uuid.V7.Increase.{V7Valid}

-- A call of the module, as far as version 7 goes: one UUID, a batch, or another draw of random bytes.
pub data Call : Type 0 where
  single : Call
  batch : ℕ → Call
  draw : ℕ → Call

-- What a call emits.
pub emit : Os → Call → M (List Uuid)
emit os single s = continue (gen_v7 os s) (λ u t. (ok (u ∷ []), t))
emit os (batch n) s = gen_v7_batch_n os n s
emit os (draw n) s = continue (rand os n s) (λ _ t. (ok [], t))

-- What a sequence of calls emits; an exception is caught, and the calls go on.
emitted : Result (List Uuid) → List Uuid
emitted (ok us) = us
emitted (err e) = []

pub run : Os → List Call → State → List Uuid × State
unfolding emit emitted
run os [] s = ([], s)
run os (c ∷ cs) s = let (r, t) = emit os c s in let (us, t') = run os cs t in (emitted r ++ us, t')

Between-lower : (lo mid hi : ℕ) (xs : List ℕ) → lo ≤ mid → Between mid xs hi → Between lo xs hi
Between-lower lo mid hi [] h k = omega arith
Between-lower lo mid hi (x ∷ xs) h k = (omega arith, k.1)

module _ (os : Os) where
  single-Emits : (s : State) → V7Valid s → Emits s (emit os single s)
  unfolding emit gen_v7
  single-Emits s v = simp (continue_assoc) (
      started-Emits os s (λ (k, r) t. (ok (lay_key k r ∷ []), keep_v7 k r t)) v
        (λ k r t i f g. one-Emits os s t k r v i f g))

  batch-Emits : (n : ℕ) (s : State) → V7Valid s → Emits s (emit os (batch n) s)
  unfolding emit gen_v7_batch_n
  batch-Emits n s v =
      started-Emits os s (λ (k, r) t. end_batch (batch_loop os n k r t)) v
        (λ k r t i f g.
          let (e, h, w) = batch_loop-Rounds os n k r t i f (floor s) (floor_below s k r v f g) in
          end_batch-Emits os s (batch_loop os n k r t).0 (batch_loop os n k r t).1 e h w)

  draw-Emits : (n : ℕ) (s : State) → V7Valid s → Emits s (emit os (draw n) s)
  unfolding emit
  draw-Emits n s v =
      continue_rule (Served os n s) (Emits s) (rand os n s) _ (rand-Served os n s v.random)
        (λ xs t (b, i, c).
          (Drawn-V7Valid s t v (record { valid = i; same = c }), le_of_eq (sym (floor_same s t c))))
        (λ e t (i, c).
          (Drawn-V7Valid s t v (record { valid = i; same = c }), le_of_eq (sym (floor_same s t c))))

  -- Every call keeps the state valid and emits above the mark.
  emit-Emits : (c : Call) (s : State) → V7Valid s → Emits s (emit os c s)
  emit-Emits single s v = single-Emits s v
  emit-Emits (batch n) s v = batch-Emits n s v
  emit-Emits (draw n) s v = draw-Emits n s v

  step-Between :
      (s : State) (r : Result (List Uuid)) (t : State) (us : List Uuid) (hi : ℕ)
      → Emits s (r, t)
      → (V7Valid t → Between (floor t) (values us) hi)
      → Between (floor s) (values (emitted r ++ us)) hi
  unfolding emitted
  step-Between s (ok vs) t us hi (v, g) h =
      rw map-append (Between-append (floor s) (floor t) hi (values vs) (values us) g (h v))
  step-Between s (err e) t us hi (v, g) h = Between-lower (floor s) (floor t) hi (values us) g (h v)

  -- In a valid state, whatever calls follow (single UUIDs, batches and other draws, some of them
  -- failing), the version 7 UUIDs that they emit increase strictly as 128-bit numbers, from the mark
  -- before the calls on and below the mark after them.
  pub run-Between :
      (cs : List Call) (s : State)
      → V7Valid s
      → Between (floor s) (values (run os cs s).0) (floor (run os cs s).1)
  unfolding run
  run-Between [] s v = omega arith
  run-Between (c ∷ cs) s v =
      let (r, t) = emit os c s in
      step-Between s r t (run os cs t).0 (floor (run os cs t).1) (emit-Emits c s v)
        (λ w. run-Between cs t w)
