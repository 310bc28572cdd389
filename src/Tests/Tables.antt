-- ===== src/Tests/Tables.antt =====
-- The theorems on the slots of frameless functions applied to concrete tables.
use fast_uuid.Common.{
  ◌++◌, Option, get_or, ◌==◌, if◌then◌else◌, All, ℕ, ◌≡◌, arith, List, [], ◌∷◌, some, none, true,
}
use fast_uuid.Frameless.{FunctionEntry, EngineFunction, first_slot, disable_for_dl}
use fast_uuid.Frameless.Cleared.{IsUnbound}
use fast_uuid.Frameless.Slots.{Finds, first_slot-Finds}
use fast_uuid.Frameless.Disabled.{disable_for_dl_lem}

-- Two functions, and one without frameless handlers between them.
abbrev functions : List FunctionEntry
functions =
    record { fname = b'u' ∷ []; frameless = some (900, 101 ∷ 102 ∷ []) }
    ∷ record { fname = b'v' ∷ []; frameless = none }
    ∷ record { fname = b'w' ∷ []; frameless = some (901, 103 ∷ []) }
    ∷ []

abbrev engine : List EngineFunction
engine = record { is_internal = true; frameless_infos = 900 } ∷ []

abbrev handlers : List ℕ
handlers = 101 ∷ 102 ∷ 103 ∷ []

-- The handlers of another module on both sides.
abbrev slots : List ℕ
slots = 7 ∷ 101 ∷ 102 ∷ 103 ∷ 8 ∷ []

first_slot-Finds_example : Finds slots handlers (first_slot (slots ++ 0 ∷ 101 ∷ []) handlers)
first_slot-Finds_example =
    first_slot-Finds slots (101 ∷ []) handlers
      (omega arith, (omega arith, (omega arith, (omega arith, (omega arith, tt))))) (omega arith)
      (omega arith)

-- The engine finds the first function only.
abbrev find_ptr_lc : List ℕ → Option ℕ
find_ptr_lc name = if get_or name 0 0 == b'u' then some 0 else none

disable_for_dl_lem_example :
    ((disable_for_dl find_ptr_lc 5 functions (engine, 7 ∷ 8 ∷ handlers)).1 ≡ 7 ∷ 8 ∷ 5 ∷ 5 ∷ 5 ∷ [])
    × All
        (IsUnbound find_ptr_lc
          (disable_for_dl find_ptr_lc 5 functions (engine, 7 ∷ 8 ∷ handlers)).0)
        functions
disable_for_dl_lem_example =
    disable_for_dl_lem find_ptr_lc 5 functions engine (7 ∷ 8 ∷ [])
      (omega arith, (tt, (omega arith, tt)))
      (omega arith, (omega arith, (omega arith, (omega arith, (omega arith, tt))))) (omega arith)
      (omega arith) (omega arith)
