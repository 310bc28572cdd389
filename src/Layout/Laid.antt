-- ===== src/Layout/Laid.antt =====
-- The timestamp fields of the laid out versions hold the timestamp.
use fast_uuid.Common.{
  List, All, IsByte, length, get_or-IsByte, ℕ, ◌*◌, ◌/◌, ◌%◌, ◌^◌, ◌<◌, ◌≡◌, arith,
}
use fast_uuid.Common.Bits.{masks, fields}
use fast_uuid.Uuid.{Uuid, IsBytes}
use fast_uuid.Layout.Fields.{ticks_v6_value, ticks_v1_value, ticks_v1_value_2, millis_v7_value}
use fast_uuid.Layout.{
  stamp_v1, stamp_v6, place_node, place_dce, lay_v7, ticks_v1, ticks_v6, millis_v7,
}

-- A list of six bytes, the node.
abbrev pub IsNode : List ℕ → Type 0
IsNode node = (length node ≡ 6) × All IsByte node

abbrev pub laid_v6 : Uuid → ℕ → ℕ → List ℕ → Uuid
laid_v6 b g cs node = place_node (stamp_v6 b g) cs node

pub laid_v6-IsBytes :
    (b : Uuid) (g cs : ℕ) (node : List ℕ) → All IsByte node → IsBytes (laid_v6 b g cs node)
unfolding stamp_v6 place_node
laid_v6-IsBytes b g cs node h = omega (
  arith,
  masks,
  fields,
  get_or-IsByte node 0 h,
  get_or-IsByte node 1 h,
  get_or-IsByte node 2 h,
  get_or-IsByte node 3 h,
  get_or-IsByte node 4 h,
  get_or-IsByte node 5 h,
)

pub ticks_v6-laid_v6 :
    (b : Uuid) (g cs : ℕ) (node : List ℕ)
    → All IsByte node
    → ticks_v6 (laid_v6 b g cs node) ≡ g % 2 ^ 60
unfolding stamp_v6 place_node
ticks_v6-laid_v6 b g cs node h =
    omega
      (arith, masks, fields, ticks_v6_value (laid_v6 b g cs node) (laid_v6-IsBytes b g cs node h))

abbrev pub laid_v1 : Uuid → ℕ → ℕ → List ℕ → Uuid
laid_v1 b g cs node = place_node (stamp_v1 b g) cs node

pub laid_v1-IsBytes :
    (b : Uuid) (g cs : ℕ) (node : List ℕ) → All IsByte node → IsBytes (laid_v1 b g cs node)
unfolding stamp_v1 place_node
laid_v1-IsBytes b g cs node h = omega (
  arith,
  masks,
  fields,
  get_or-IsByte node 0 h,
  get_or-IsByte node 1 h,
  get_or-IsByte node 2 h,
  get_or-IsByte node 3 h,
  get_or-IsByte node 4 h,
  get_or-IsByte node 5 h,
)

pub ticks_v1-laid_v1 :
    (b : Uuid) (g cs : ℕ) (node : List ℕ)
    → All IsByte node
    → ticks_v1 (laid_v1 b g cs node) 1 ≡ g % 2 ^ 60
unfolding stamp_v1 place_node
ticks_v1-laid_v1 b g cs node h = omega (
  arith,
  masks,
  fields,
  ticks_v1_value (laid_v1 b g cs node) 1 (laid_v1-IsBytes b g cs node h) (omega arith),
)

abbrev pub laid_v2 : Uuid → ℕ → ℕ → List ℕ → ℕ → ℕ → Uuid
laid_v2 b g cs node id domain = place_dce (laid_v1 b g cs node) id domain

pub laid_v2-IsBytes :
    (b : Uuid) (g cs : ℕ) (node : List ℕ) (id domain : ℕ)
    → All IsByte node
    → domain < 256
    → IsBytes (laid_v2 b g cs node id domain)
unfolding stamp_v1 place_node place_dce
laid_v2-IsBytes b g cs node id domain h d = omega (
  arith,
  masks,
  fields,
  get_or-IsByte node 0 h,
  get_or-IsByte node 1 h,
  get_or-IsByte node 2 h,
  get_or-IsByte node 3 h,
  get_or-IsByte node 4 h,
  get_or-IsByte node 5 h,
)

-- Of the timestamp the bits from 32 on stay.
pub ticks_v1-laid_v2 :
    (b : Uuid) (g cs : ℕ) (node : List ℕ) (id domain : ℕ)
    → All IsByte node
    → domain < 256
    → ticks_v1 (laid_v2 b g cs node id domain) 2 ≡ g % 2 ^ 60 / 2 ^ 32 * 2 ^ 32
unfolding stamp_v1 place_node place_dce
ticks_v1-laid_v2 b g cs node id domain h d = omega (
  arith,
  masks,
  fields,
  ticks_v1_value_2 (laid_v2 b g cs node id domain) (laid_v2-IsBytes b g cs node id domain h d),
)

pub lay_v7-IsBytes : (ms sub randb : ℕ) → IsBytes (lay_v7 ms sub randb)
unfolding lay_v7
lay_v7-IsBytes ms sub randb = omega (arith, masks, fields)

pub millis_v7-lay_v7 : (ms sub randb : ℕ) → ms < 2 ^ 48 → millis_v7 (lay_v7 ms sub randb) ≡ ms
unfolding lay_v7
millis_v7-lay_v7 ms sub randb h =
    omega
      (arith, masks, fields, millis_v7_value (lay_v7 ms sub randb) (lay_v7-IsBytes ms sub randb))
