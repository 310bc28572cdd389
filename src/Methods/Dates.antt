-- ===== src/Methods/Dates.antt =====
-- `fromDateTime`: the UUID decodes to the date that it was made from.
use fast_uuid.Common.{
  ℕ, ◌^◌, ◌<◌, ◌≡◌, arith, Option, none, some, List, [], ◌∷◌, All, IsByte, length, ltb, ◌==◌,
  Result, ok, err, Bool-cases, inl, inr, ap, ◌∙◌,
}
use fast_uuid.Common.Bits.{mask_8}
use fast_uuid.Common.Int.{ℤ, pos, negsuc}
use fast_uuid.State.{State, Os, continue_rule}
use fast_uuid.Uuid.{Uuid, IsBytes}
use fast_uuid.Parse.{hex_byte, join_byte, read_bytes, bare_positions}
use fast_uuid.Layout.{decode_time, ticks_time, stamp_v1}
use fast_uuid.Layout.Decode.{IsVersion}
use fast_uuid.Random.Valid.{IsValid, SameClock}
use fast_uuid.Args.{
  StrOrLong, null, str, long, node_arg, clockseq_arg, given_node, parse_node_str, parse_node_long,
}
use fast_uuid.V7.{ms48_max}
use fast_uuid.Generate.{lay_v1, lay_clockseq_node}
use fast_uuid.Generate.Laid.{IsNodeArg, IsPlaced, Chosen, lay_clockseq_node-Chosen}
use fast_uuid.Generate.Stamped.{IsStamped-v1}
use fast_uuid.Object.{Obj, return_uuid, create}
use fast_uuid.Methods.{from_date_time, ticks_arg, returned, checked}
use fast_uuid.Methods.Ticks.{TicksOf, ticks_arg-TicksOf}

-- Bytes, where there are any.
abbrev AreBytes : Option (List ℕ) → Type 0
AreBytes none = Unit {0}
AreBytes (some xs) = All IsByte xs

join_byte-AreBytes :
    (a b : Option ℕ) (r : Option (List ℕ)) → AreBytes r → AreBytes (join_byte (hex_byte a b) r)
unfolding join_byte hex_byte
join_byte-AreBytes none b r h = tt
join_byte-AreBytes (some x) none r h = tt
join_byte-AreBytes (some x) (some y) none h = tt
join_byte-AreBytes (some x) (some y) (some xs) h = (omega arith, h)

read_bytes-AreBytes : (s ps : List ℕ) → AreBytes (read_bytes s ps)
unfolding read_bytes
read_bytes-AreBytes s [] = tt
read_bytes-AreBytes s (p ∷ ps) = join_byte-AreBytes _ _ (read_bytes s ps) (read_bytes-AreBytes s ps)

-- A node that is accepted is bytes.
abbrev IsNodeResult : Result (Option (List ℕ)) → Type 0
IsNodeResult (ok node) = IsNodeArg node
IsNodeResult (err e) = Unit {0}

given_node-IsNodeResult : (o : Option (List ℕ)) → AreBytes o → IsNodeResult (given_node o)
unfolding given_node
given_node-IsNodeResult none h = tt
given_node-IsNodeResult (some xs) h = h

parse_node_str-AreBytes : (s : List ℕ) → AreBytes (parse_node_str s)
unfolding parse_node_str
parse_node_str-AreBytes s = elim (Bool-cases (length s == 12)) [
  | inl e ↦ rw e (read_bytes-AreBytes s (bare_positions 6 0))
  | inr e ↦ rw e tt
]

parse_node_long-AreBytes : (n : ℤ) → AreBytes (parse_node_long n)
unfolding parse_node_long
parse_node_long-AreBytes (negsuc n) = tt
parse_node_long-AreBytes (pos n) = elim (Bool-cases (ltb ms48_max n)) [
  | inl e ↦ rw e tt
  | inr e ↦ rw e (omega (arith, mask_8))
]

node_arg-IsNodeResult : (node : StrOrLong) → IsNodeResult (node_arg node)
unfolding node_arg
node_arg-IsNodeResult null = tt
node_arg-IsNodeResult (str s) =
    given_node-IsNodeResult (parse_node_str s) (parse_node_str-AreBytes s)
node_arg-IsNodeResult (long n) =
    given_node-IsNodeResult (parse_node_long n) (parse_node_long-AreBytes n)

-- An object of version 1 that decodes to the date; however the call ends, the state stays valid and
-- no clock mark moves.
abbrev pub DatesFrom : ℤ × ℕ → State → Result Obj × State → Type 0
DatesFrom d s (ok o, t) =
    IsBytes o.bytes
    × IsVersion 1 o.bytes
    × (decode_time o.bytes ≡ some d)
    × IsValid t
    × SameClock s t
DatesFrom d s (err e, t) = IsValid t × SameClock s t

module _ (d : ℤ × ℕ) (s : State) where
  -- A check of the arguments, and what follows it.
  checked-DatesFrom :
      {A : Type 0} (r : Result A) (P : Result A → Type 0) (f : A → State → Result Obj × State)
      → IsValid s
      → P r
      → ((a : A) → P (ok a) → DatesFrom d s (f a s))
      → DatesFrom d s (checked r f s)
  checked-DatesFrom (ok a) P f v p h = h a p
  checked-DatesFrom (err e) P f v p h = (v, ground arith)

laid-DatesFrom :
    (os : Os) (b : Uuid) (d : ℤ × ℕ) (g : ℕ) (node : Option (List ℕ)) (cs : ℤ) (s : State)
    → IsValid s
    → IsNodeArg node
    → ticks_time g ≡ d
    → g < 2 ^ 60
    → DatesFrom d s (returned (lay_v1 os b g node cs s))
unfolding lay_v1 return_uuid create
laid-DatesFrom os b d g node cs s v n e h =
    continue_rule (Chosen (IsPlaced (stamp_v1 b g)) s) (DatesFrom d s)
      (lay_clockseq_node os (stamp_v1 b g) node cs s) _
      (lay_clockseq_node-Chosen os (stamp_v1 b g) node cs s v n)
      (λ u t (p, i, c).
        let w = IsStamped-v1 b g u h p in (w.0, w.1, w.3 ∙ ap (λ x. some x) e, i, c))
      (λ x t p. p)

abbrev Anything : Result ℤ → Type 0
Anything r = Unit {0}

-- In a valid state, for a date with microseconds below a million: a call that returns gives an
-- object of sixteen bytes of version 1 that decode to the date; and whether it returns or fails, the
-- state stays valid and no clock mark moves.
pub from_date_time-DatesFrom :
    (os : Os) (b : Uuid) (secs : ℤ) (m : ℕ) (node : StrOrLong) (clockseq : Option ℤ) (s : State)
    → IsValid s
    → m < 1000000
    → DatesFrom (secs, m) s (from_date_time os b (ok (secs, m)) node clockseq s)
unfolding from_date_time
from_date_time-DatesFrom os b secs m node clockseq s v h =
    checked-DatesFrom (secs, m) s (node_arg node) IsNodeResult _ v (node_arg-IsNodeResult node)
      λ np n.
        checked-DatesFrom (secs, m) s (clockseq_arg clockseq) Anything _ v tt
          λ cs _.
            checked-DatesFrom (secs, m) s (ticks_arg (secs, m)) (TicksOf (secs, m)) _ v
              (ticks_arg-TicksOf secs m h)
              λ g k. laid-DatesFrom os b (secs, m) g np cs s v n k.0 k.1
