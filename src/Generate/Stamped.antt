-- ===== src/Generate/Stamped.antt =====
-- Versions 1 and 6: what a call returns decodes to a timestamp above that of every call before it.
use fast_uuid.Common.{
  ℕ, ◌%◌, ◌^◌, ◌<◌, ◌≤◌, ◌≡◌, ap, ◌∙◌, arith, Option, some, List, Result, ok, err, if◌then◌else◌,
  ◌==◌,
}
use fast_uuid.Common.Int.{ℤ}
use fast_uuid.Common.Bits.{masks, fields}
use fast_uuid.State.{State, Os, continue_rule}
use fast_uuid.Uuid.{Uuid, IsBytes}
use fast_uuid.Layout.{
  stamp_v1, stamp_v6, place_node, place_dce, decode_time, ticks_time, version, ticks_v1, ticks_v6,
}
use fast_uuid.Layout.Laid.{
  laid_v1, laid_v2, laid_v6, laid_v1-IsBytes, laid_v6-IsBytes, ticks_v1-laid_v1, ticks_v6-laid_v6,
}
use fast_uuid.Layout.Decode.{IsVersion, IsVersion-tests, decode_time-v1, decode_time-v6}
use fast_uuid.Random.Valid.{IsValid}
use fast_uuid.Clock.{greg_monotonic}
use fast_uuid.Clock.Marks.{Moves, greg_monotonic-Moves}
use fast_uuid.Generate.{lay_clockseq_node, lay_v1, lay_v6, gen_v1_ex, gen_v6_ex}
use fast_uuid.Generate.Laid.{IsNodeArg, IsPlaced, Chosen, lay_clockseq_node-Chosen}

-- The 60-bit timestamp that `fu_decode_time` reads.
abbrev pub ticks_of : Uuid → ℕ
ticks_of u = if version u == 6 then ticks_v6 u else ticks_v1 u (version u)

-- Sixteen bytes of the version, with the timestamp g.
abbrev pub IsStamped : ℕ → ℕ → Uuid → Type 0
IsStamped v g u =
    IsBytes u × IsVersion v u × (ticks_of u ≡ g) × (decode_time u ≡ some (ticks_time g))

IsVersion-v1 : (b : Uuid) (g cs : ℕ) (node : List ℕ) → IsVersion 1 (laid_v1 b g cs node)
unfolding stamp_v1 place_node
IsVersion-v1 b g cs node = omega (arith, masks, fields)

IsVersion-v6 : (b : Uuid) (g cs : ℕ) (node : List ℕ) → IsVersion 6 (laid_v6 b g cs node)
unfolding stamp_v6 place_node
IsVersion-v6 b g cs node = omega (arith, masks, fields)

IsVersion-v2 :
    (b : Uuid) (g cs : ℕ) (node : List ℕ) (id domain : ℕ)
    → IsVersion 2 (laid_v2 b g cs node id domain)
unfolding stamp_v1 place_node place_dce
IsVersion-v2 b g cs node id domain = omega (arith, masks, fields)

mod_small : (g : ℕ) → g < 2 ^ 60 → g % 2 ^ 60 ≡ g
mod_small g h = omega arith

pub IsStamped-v1 :
    (b : Uuid) (g : ℕ) (u : Uuid) → g < 2 ^ 60 → IsPlaced (stamp_v1 b g) u → IsStamped 1 g u
IsStamped-v1 b g u h (cs, node, e, k) =
    let i = laid_v1-IsBytes b g cs node k in
    let w = IsVersion-v1 b g cs node in
    let q = ticks_v1-laid_v1 b g cs node k ∙ mod_small g h in
    rw e (
      i,
      w,
      ap (λ x. if x == 6 then ticks_v6 (laid_v1 b g cs node) else ticks_v1 (laid_v1 b g cs node) x)
            (IsVersion-tests 1 (laid_v1 b g cs node) i w).1
          ∙ q,
      decode_time-v1 (laid_v1 b g cs node) i w ∙ ap (λ x. some (ticks_time x)) q,
    )

IsStamped-v6 :
    (b : Uuid) (g : ℕ) (u : Uuid) → g < 2 ^ 60 → IsPlaced (stamp_v6 b g) u → IsStamped 6 g u
IsStamped-v6 b g u h (cs, node, e, k) =
    let i = laid_v6-IsBytes b g cs node k in
    let w = IsVersion-v6 b g cs node in
    let q = ticks_v6-laid_v6 b g cs node k ∙ mod_small g h in
    rw e (
      i,
      w,
      ap (λ x. if x == 6 then ticks_v6 (laid_v6 b g cs node) else ticks_v1 (laid_v6 b g cs node) x)
            (IsVersion-tests 6 (laid_v6 b g cs node) i w).1
          ∙ q,
      decode_time-v6 (laid_v6 b g cs node) i w ∙ ap (λ x. some (ticks_time x)) q,
    )

-- A call that returns hands out a timestamp above the mark, and moves the mark to it; one that fails
-- may have moved the mark up.
abbrev pub Stamps : ℕ → State → Result Uuid × State → Type 0
Stamps v s (ok u, t) =
    IsStamped v t.greg_last u × (s.greg_last < t.greg_last) × (t.greg_last < 2 ^ 60) × IsValid t
Stamps v s (err e, t) = (s.greg_last ≤ t.greg_last) × (t.greg_last < 2 ^ 60) × IsValid t

module _ (os : Os) (b : Uuid) (node : Option (List ℕ)) (clockseq : ℤ) where
  -- From a moved mark on.
  laid-Stamps :
      (v g : ℕ) (a : Uuid) (s t : State)
      → ((u : Uuid) → IsPlaced a u → IsStamped v g u)
      → IsNodeArg node
      → Moves s (ok g, t)
      → Stamps v s (lay_clockseq_node os a node clockseq t)
  laid-Stamps v g a s t stamped n (lower, e, h, i) =
      chosen (lay_clockseq_node os a node clockseq t)
        (lay_clockseq_node-Chosen os a node clockseq t i n)
    where
      chosen : (r : Result Uuid × State) → Chosen (IsPlaced a) t r → Stamps v s r
      chosen (ok u, t') (p, i', c) =
          let e' = c.greg_last_same ∙ e in simp e' (stamped u p, lower, h, i')
      chosen (err x, t') (i', c) = let e' = c.greg_last_same ∙ e in simp e' (omega arith, h, i')

  pub gen_v1_ex-Stamps :
      (s : State)
      → IsValid s
      → s.greg_last < 2 ^ 60
      → IsNodeArg node
      → Stamps 1 s (gen_v1_ex os b node clockseq s)
  unfolding gen_v1_ex lay_v1
  gen_v1_ex-Stamps s v h n =
      continue_rule (Moves s) (Stamps 1 s) (greg_monotonic os s) _ (greg_monotonic-Moves os s v h)
        (λ g t m. laid-Stamps 1 g (stamp_v1 b g) s t (λ u p. IsStamped-v1 b g u m.2 p) n m)
        (λ e t (same, i). (omega arith, omega arith, i))

  pub gen_v6_ex-Stamps :
      (s : State)
      → IsValid s
      → s.greg_last < 2 ^ 60
      → IsNodeArg node
      → Stamps 6 s (gen_v6_ex os b node clockseq s)
  unfolding gen_v6_ex lay_v6
  gen_v6_ex-Stamps s v h n =
      continue_rule (Moves s) (Stamps 6 s) (greg_monotonic os s) _ (greg_monotonic-Moves os s v h)
        (λ g t m. laid-Stamps 6 g (stamp_v6 b g) s t (λ u p. IsStamped-v6 b g u m.2 p) n m)
        (λ e t (same, i). (omega arith, omega arith, i))

  -- In a valid state with a mark below 2^60, a call of version 1 or of version 6 that returns gives
  -- sixteen bytes of its version whose timestamp, as `fu_decode_time` reads it, is the new mark, above
  -- the old one and below 2^60; a call that fails does not lower the mark. The state stays valid.
  pub gen_v1-v6-Stamps :
      (s : State)
      → IsValid s
      → s.greg_last < 2 ^ 60
      → IsNodeArg node
      → Stamps 1 s (gen_v1_ex os b node clockseq s) × Stamps 6 s (gen_v6_ex os b node clockseq s)
  gen_v1-v6-Stamps s v h n = (gen_v1_ex-Stamps s v h n, gen_v6_ex-Stamps s v h n)
