-- ===== src/Generate/Laid.antt =====
-- What the clock-based generators return: sixteen bytes of their version, from which
-- `fu_decode_time` reads the timestamp that was laid out.
use fast_uuid.Common.{
  ℕ, ◌<◌, ◌≡◌, refl, arith, Option, none, some, List, [], ◌∷◌, take, All, IsByte, get_or, Result,
  ok, err, bit_or,
}
use fast_uuid.Common.Int.{ℤ, pos, negsuc}
use fast_uuid.Common.Bits.{all_below, all_below_sound}
use fast_uuid.Common.{ltb}
use fast_uuid.State.{State, Os, continue, continue_rule}
use fast_uuid.Uuid.{Uuid}
use fast_uuid.Layout.{place_node}
use fast_uuid.Random.{rand}
use fast_uuid.Random.Valid.{IsValid, SameClock, Served, rand-Served, All-take}
use fast_uuid.Generate.{multicast, choose_clockseq, choose_node, lay_clockseq_node, clockseq_of}

-- A node argument, where there is one, is bytes.
abbrev pub IsNodeArg : Option (List ℕ) → Type 0
IsNodeArg none = Unit {0}
IsNodeArg (some node) = All IsByte node

bit_or_one_IsByte : (x : ℕ) → x < 256 → bit_or x 0x01 < 256
unfolding all_below
bit_or_one_IsByte x h =
    let e = all_below_sound 256 (λ x. ltb (bit_or x 0x01) 256) x refl h in ground (arith, e)

multicast-IsByte : (xs : List ℕ) → All IsByte xs → All IsByte (multicast xs)
unfolding multicast
multicast-IsByte [] h = tt
multicast-IsByte (x ∷ xs) h = (bit_or_one_IsByte x h.0, h.1)

-- A choice that draws: its result satisfies Q, and the clock marks are those before it.
abbrev pub Chosen : {A : Type 0} → (A → Type 0) → State → Result A × State → Type 0
Chosen Q s (ok a, t) = Q a × IsValid t × SameClock s t
Chosen Q s (err e, t) = IsValid t × SameClock s t

SameClock_refl : (s : State) → SameClock s s
SameClock_refl s = ground arith

pub SameClock_trans : (s t r : State) → SameClock s t → SameClock t r → SameClock s r
SameClock_trans s t r h k = ground (arith, h, k)

-- A node and a clock sequence behind the timestamp of b.
abbrev pub IsPlaced : Uuid → Uuid → Type 0
IsPlaced b u = (cs : ℕ) × (node : List ℕ) × (u ≡ place_node b cs node) × All IsByte node

module _ (os : Os) where
  choose_node-Chosen :
      (node : Option (List ℕ)) (s : State)
      → IsValid s
      → IsNodeArg node
      → Chosen (All IsByte) s (choose_node os node s)
  unfolding choose_node
  choose_node-Chosen (some node) s v h = (h, v, SameClock_refl s)
  choose_node-Chosen none s v h =
      continue_rule (Served os 6 s) (Chosen (All IsByte) s) (rand os 6 s) _ (rand-Served os 6 s v)
        (λ r t (buffer, i, c). (multicast-IsByte r buffer.1, i, c)) (λ e t p. p)

  choose_clockseq-Chosen :
      (clockseq : ℤ) (s : State)
      → IsValid s
      → Chosen (λ cs. Unit {0}) s (choose_clockseq os clockseq s)
  unfolding choose_clockseq
  choose_clockseq-Chosen (pos cs) s v = (tt, v, SameClock_refl s)
  choose_clockseq-Chosen (negsuc n) s v =
      continue_rule (Served os 2 s) (Chosen (λ cs. Unit {0}) s) (rand os 2 s) _
        (rand-Served os 2 s v) (λ r t (buffer, i, c). (tt, i, c)) (λ e t p. p)

  -- The two choices one after the other.
  apart :
      (b : Uuid) (node : Option (List ℕ)) (clockseq : ℤ) (s : State)
      → IsValid s
      → IsNodeArg node
      → Chosen (IsPlaced b) s (
          continue
            (choose_clockseq os clockseq s)
            (λ cs t. continue (choose_node os node t) (λ nd t'. (ok (place_node b cs nd), t'))))
  apart b node clockseq s v h =
      continue_rule (Chosen (λ cs. Unit {0}) s) (Chosen (IsPlaced b) s)
        (choose_clockseq os clockseq s) _ (choose_clockseq-Chosen clockseq s v)
        (λ cs t (_, i, c).
          continue_rule (Chosen (All IsByte) t) (Chosen (IsPlaced b) s) (choose_node os node t) _
            (choose_node-Chosen node t i h)
            (λ nd t' (k, i', c'). ((cs, nd, refl, k), i', SameClock_trans s t t' c c'))
            (λ e t' (i', c'). (i', SameClock_trans s t t' c c')))
        (λ e t p. p)

  pub lay_clockseq_node-Chosen :
      (b : Uuid) (node : Option (List ℕ)) (clockseq : ℤ) (s : State)
      → IsValid s
      → IsNodeArg node
      → Chosen (IsPlaced b) s (lay_clockseq_node os b node clockseq s)
  unfolding lay_clockseq_node
  lay_clockseq_node-Chosen b none (negsuc n) s v h =
      continue_rule (Served os 8 s) (Chosen (IsPlaced b) s) (rand os 8 s) _ (rand-Served os 8 s v)
        (λ r t (buffer, i, c). (
          (
            clockseq_of (get_or r 6 0) (get_or r 7 0),
            multicast (take 6 r),
            refl,
            multicast-IsByte (take 6 r) (All-take 6 r buffer.1),
          ),
          i,
          c,
        ))
        (λ e t p. p)
  lay_clockseq_node-Chosen b none (pos cs) s v h = apart b none (pos cs) s v h
  lay_clockseq_node-Chosen b (some node) (pos cs) s v h = apart b (some node) (pos cs) s v h
  lay_clockseq_node-Chosen b (some node) (negsuc n) s v h = apart b (some node) (negsuc n) s v h
