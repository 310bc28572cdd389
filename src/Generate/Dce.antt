-- ===== src/Generate/Dce.antt =====
-- Version 2: the local identifier and domain are where RFC 9562 and DCE put them, and of the
-- timestamp the bits above the local identifier are left.
use fast_uuid.Common.{
  ℕ, ◌+◌, ◌*◌, ◌/◌, ◌^◌, ◌<◌, ◌≤◌, ◌≡◌, sym, ap, ◌∙◌, arith, Option, some, List, Result, ok, err,
  true,
}
use fast_uuid.Common.Int.{ℤ}
use fast_uuid.Common.Bits.{masks, fields}
use fast_uuid.State.{State, Os, continue, continue_rule}
use fast_uuid.Uuid.{Uuid, IsBytes}
use fast_uuid.Layout.{stamp_v1, place_node, place_dce, decode_time, ticks_time}
use fast_uuid.Layout.Laid.{laid_v2, laid_v2-IsBytes, ticks_v1-laid_v2}
use fast_uuid.Layout.Decode.{IsVersion, decode_time-v2}
use fast_uuid.Random.Valid.{IsValid}
use fast_uuid.Clock.{v2_monotonic}
use fast_uuid.Clock.Marks.{MovesV2, v2_monotonic-MovesV2}
use fast_uuid.Generate.{lay_v1, gen_v2}
use fast_uuid.Generate.Laid.{IsNodeArg, IsPlaced, Chosen, lay_clockseq_node-Chosen}

IsVersion-v2 :
    (b : Uuid) (g cs : ℕ) (node : List ℕ) (id domain : ℕ)
    → IsVersion 2 (laid_v2 b g cs node id domain)
unfolding stamp_v1 place_node place_dce
IsVersion-v2 b g cs node id domain = omega (arith, masks, fields)

-- The four bytes of the local identifier, high byte first, and the domain.
abbrev pub HoldsLocal : ℕ → ℕ → Uuid → Type 0
HoldsLocal id domain u = (((u.b0 * 256 + u.b1) * 256 + u.b2) * 256 + u.b3 ≡ id) × (u.b9 ≡ domain)

-- A version 2 with this identifier whose timestamp is g without its low 32 bits.
abbrev pub IsDce : ℕ → ℕ → ℕ → Uuid → Type 0
IsDce id domain mark u =
    IsBytes u
    × IsVersion 2 u
    × HoldsLocal id domain u
    × (decode_time u ≡ some (ticks_time (mark * 2 ^ 32)))

HoldsLocal-v2 :
    (b : Uuid) (g cs : ℕ) (node : List ℕ) (id domain : ℕ)
    → id < 2 ^ 32
    → HoldsLocal id domain (laid_v2 b g cs node id domain)
unfolding place_dce
HoldsLocal-v2 b g cs node id domain h = omega (arith, masks)

IsDce-v2 :
    (b : Uuid) (g id domain : ℕ) (u : Uuid)
    → g < 2 ^ 60
    → id < 2 ^ 32
    → domain < 256
    → IsPlaced (stamp_v1 b g) u
    → IsDce id domain (g / 2 ^ 32) (place_dce u id domain)
IsDce-v2 b g id domain u h l d (cs, node, e, k) =
    let i = laid_v2-IsBytes b g cs node id domain k d in
    let w = IsVersion-v2 b g cs node id domain in
    rw e (
      i,
      w,
      HoldsLocal-v2 b g cs node id domain l,
      decode_time-v2 (laid_v2 b g cs node id domain) i w
          ∙ ap (λ x. some (ticks_time x))
              (ticks_v1-laid_v2 b g cs node id domain k d ∙ omega arith),
    )

-- A monotonic call that returns moves the mark up, and the visible timestamp is the mark.
abbrev pub Issues : ℕ → ℕ → State → Result Uuid × State → Type 0
Issues id domain s (ok u, t) =
    IsDce id domain t.v2_last u
    × (s.v2_last < t.v2_last)
    × (t.v2_last < 2 ^ 28)
    × (t.greg_last ≡ s.greg_last)
    × IsValid t
Issues id domain s (err e, t) =
    (s.v2_last ≤ t.v2_last) × (t.v2_last < 2 ^ 28) × (t.greg_last ≡ s.greg_last) × IsValid t

module _ (os : Os) (b : Uuid) (id domain : ℕ) (node : Option (List ℕ)) (clockseq : ℤ) where
  laid-Issues :
      (g : ℕ) (s t : State)
      → id < 2 ^ 32
      → domain < 256
      → IsNodeArg node
      → MovesV2 s (ok g, t)
      → Issues id domain s
          (continue (lay_v1 os b g node clockseq t) (λ u t'. (ok (place_dce u id domain), t')))
  unfolding lay_v1
  laid-Issues g s t l d n (lower, e, h, i, same) =
      continue_rule (Chosen (IsPlaced (stamp_v1 b g)) t) (Issues id domain s)
        (lay_v1 os b g node clockseq t) _
        (lay_clockseq_node-Chosen os (stamp_v1 b g) node clockseq t i n)
        (λ u t' (p, i', c).
          let e' = c.v2_last_same ∙ sym e in
          simp e' (
            IsDce-v2 b g id domain u h l d p,
            omega arith,
            omega arith,
            c.greg_last_same ∙ same,
            i',
          ))
        (λ x t' (i', c).
          let e' = c.v2_last_same in
          simp e' (omega arith, omega arith, c.greg_last_same ∙ same, i'))

  -- In a valid state with a mark below 2^28, for an identifier of 32 bits and a domain of one byte, a
  -- monotonic version 2 call that returns gives sixteen bytes of version 2 that hold the identifier
  -- and the domain and decode to the new mark shifted by 32 bits; that mark is above the old one and
  -- below 2^28. A call that fails does not lower it. The mark of versions 1 and 6 does not move.
  pub gen_v2-Issues :
      (s : State)
      → IsValid s
      → s.v2_last < 2 ^ 28
      → id < 2 ^ 32
      → domain < 256
      → IsNodeArg node
      → Issues id domain s (gen_v2 os b id domain node clockseq true s)
  unfolding gen_v2
  gen_v2-Issues s v h l d n =
      continue_rule (MovesV2 s) (Issues id domain s) (v2_monotonic os s) _
        (v2_monotonic-MovesV2 os s v h) (λ g t m. laid-Issues g s t l d n m)
        (λ e t (same, i, same'). (omega arith, omega arith, same', i))
