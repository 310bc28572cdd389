-- ===== src/Frameless.antt =====
-- fast_uuid.c, the slots of frameless functions (PHP 8.4): `fu_flf_handlers`, `fu_flf_run_at`,
-- `fu_flf_first_slot`, `fu_flf_key_system_id` and `fu_flf_disable_for_dl`. The engine's table
-- `zend_flf_handlers` is the list of its entries as addresses; it ends at the first 0, and an entry
-- past the end of the list is 0. The engine's function table is a parameter.
pub mod Handlers
pub mod Runs
pub mod Slots
pub mod Cleared
pub mod Disabled
use fast_uuid.Common.{
  ℕ, zero, suc, ◌+◌, ◌-◌, ◌^◌, Bool, true, false, not, ◌&&◌, ◌||◌, Option, none, some, List, [],
  ◌∷◌, ◌++◌, get_or, get_elem?, set, length, ltb, leb, ◌==◌, if◌then◌else◌,
}

-- An entry of `ext_functions`: its name, and the handlers of `frameless_function_infos` up to the NULL
-- handler, with the address of that array; `none` is a NULL pointer.
pub record FunctionEntry : Type 0 where
  pub fname : List ℕ
  pub frameless : Option (ℕ × List ℕ)

-- `FU_FLF_MAX`
abbrev pub flf_max : ℕ
flf_max = 64

-- The inner loop of `fu_flf_handlers`: `out` holds what was written, `n` counts all.
unfoldable pub collect_infos : ℕ → List ℕ → List ℕ × ℕ → List ℕ × ℕ
collect_infos cap [] r = r
collect_infos cap (h ∷ hs) (out, n) =
    collect_infos cap hs (if ltb n cap then out ++ h ∷ [] else out, n + 1)

-- The outer loop over the functions.
unfoldable pub collect : ℕ → List FunctionEntry → List ℕ × ℕ → List ℕ × ℕ
unfolding collect_infos
collect cap [] r = r
collect cap (fe ∷ fes) r =
    collect cap fes (elim fe.frameless [ none ↦ r | some (infos, hs) ↦ collect_infos cap hs r ])

-- `fu_flf_handlers`
unfoldable pub flf_handlers : ℕ → List FunctionEntry → List ℕ × ℕ
unfolding collect
flf_handlers cap fes = collect cap fes ([], 0)

-- `fu_flf_run_at`, where `handlers` has the `n` entries.
unfoldable pub run_at : List ℕ → ℕ → List ℕ → Bool
run_at table base [] = true
run_at table base (h ∷ hs) =
    let rest = run_at table (base + 1) hs in if not (get_or table base 0 == h) then false else rest

-- `while (zend_flf_handlers && zend_flf_handlers[end]) end++`
unfoldable pub table_end : List ℕ → ℕ
table_end [] = 0
table_end (h ∷ hs) = let rest = table_end hs in if h == 0 then 0 else suc rest

-- `for (size_t base = 0; base + n <= end; base++)`, with `left` values of `base` to go.
unfoldable pub search_run : ℕ → ℕ → List ℕ → List ℕ → Option ℕ
unfolding run_at
search_run zero base table hs = none
search_run (suc left) base table hs =
    let rest = search_run left (base + 1) table hs in
    if run_at table base hs then some base else rest

-- `fu_flf_first_slot`; `none` is UINT32_MAX.
unfoldable pub first_slot : List ℕ → List ℕ → Option ℕ
unfolding table_end search_run
first_slot table hs =
    let n = length hs in
    let end = table_end table in
    if n == 0 || ltb end n || leb (2 ^ 32 - 1) (end - n)
    then none
    else if run_at table (end - n) hs
    then some (end - n)
    else search_run (end - n + 1) 0 table hs

abbrev pub slot_or : ℕ → Option ℕ → ℕ
slot_or d none = d
slot_or d (some b) = b

-- `key` of `fu_flf_key_system_id`, which goes into the engine's system id beside the version.
unfoldable pub system_key : List FunctionEntry → List ℕ → ℕ × ℕ
unfolding flf_handlers first_slot
system_key fes table =
    let (hs, n) = flf_handlers flf_max fes in
    (if leb n flf_max then slot_or (2 ^ 32 - 1) (first_slot table hs) else 2 ^ 32 - 1, n)

-- `for (uint32_t i = 0; i < n; i++) zend_flf_handlers[base + i] = marker`
unfoldable pub overwrite_run : ℕ → ℕ → ℕ → List ℕ → List ℕ
overwrite_run marker zero base table = table
overwrite_run marker (suc n) base table = overwrite_run marker n (base + 1) (set table base marker)

-- The innermost loop of the last part: `for (slot = zend_flf_handlers; slot && *slot; slot++)`.
unfoldable pub overwrite_matches : ℕ → ℕ → List ℕ → List ℕ
overwrite_matches marker h [] = []
overwrite_matches marker h (x ∷ xs) =
    let rest = overwrite_matches marker h xs in
    if x == 0 then x ∷ xs else (if x == h then marker else x) ∷ rest

unfoldable pub overwrite_each : ℕ → List ℕ → List ℕ → List ℕ
unfolding overwrite_matches
overwrite_each marker [] table = table
overwrite_each marker (h ∷ hs) table = overwrite_each marker hs (overwrite_matches marker h table)

unfoldable pub overwrite_all : ℕ → List FunctionEntry → List ℕ → List ℕ
unfolding overwrite_each
overwrite_all marker [] table = table
overwrite_all marker (fe ∷ fes) table =
    overwrite_all marker fes
      (elim fe.frameless [ none ↦ table | some (infos, hs) ↦ overwrite_each marker hs table ])

-- The second half of `fu_flf_disable_for_dl`, on the slots; `marker` is `&zend_flf_handlers`.
unfoldable pub disable_slots : ℕ → List FunctionEntry → List ℕ → List ℕ
unfolding flf_handlers first_slot overwrite_run overwrite_all
disable_slots marker fes table =
    let (hs, n) = flf_handlers flf_max fes in
    elim (if leb n flf_max then first_slot table hs else none) [
      | none ↦ overwrite_all marker fes table
      | some base ↦ overwrite_run marker n base table
    ]

-- A function of the engine's table: whether it is internal, and its `frameless_function_infos`, where
-- 0 is NULL.
pub record EngineFunction : Type 0 where
  pub is_internal : Bool
  pub frameless_infos : ℕ

-- The write behind the tests of the first loop.
unfoldable pub clear_infos : ℕ → EngineFunction → EngineFunction
clear_infos infos fn =
    if fn.is_internal && fn.frameless_infos == infos then record fn { frameless_infos = 0 } else fn

unfoldable pub clear_at : ℕ → ℕ → List EngineFunction → List EngineFunction
unfolding clear_infos
clear_at infos i fns = elim (get_elem? fns i) [
  | none ↦ fns
  | some fn ↦ set fns i (clear_infos infos fn)
]

-- The first loop of `fu_flf_disable_for_dl`; `find_ptr_lc` is the engine's lookup by a name in lower
-- case, the place of the function in its table.
unfoldable pub clear_functions :
    (List ℕ → Option ℕ) → List FunctionEntry → List EngineFunction → List EngineFunction
unfolding clear_at
clear_functions find_ptr_lc [] fns = fns
clear_functions find_ptr_lc (fe ∷ fes) fns = clear_functions find_ptr_lc fes (elim fe.frameless [
  | none ↦ fns
  | some (infos, hs) ↦ elim (find_ptr_lc fe.fname) [ none ↦ fns | some i ↦ clear_at infos i fns ]
])

-- `fu_flf_disable_for_dl`
unfoldable pub disable_for_dl :
    (List ℕ → Option ℕ)
    → ℕ
    → List FunctionEntry
    → List EngineFunction × List ℕ
    → List EngineFunction × List ℕ
unfolding clear_functions disable_slots
disable_for_dl find_ptr_lc marker fes (fns, table) =
    (clear_functions find_ptr_lc fes fns, disable_slots marker fes table)
