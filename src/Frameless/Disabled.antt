-- ===== src/Frameless/Disabled.antt =====
-- The slots and the functions after `fu_flf_disable_for_dl`.
use fast_uuid.Common.{
  ℕ, ◌+◌, ◌-◌, ◌^◌, ◌<◌, ◌≤◌, ◌≡◌, refl, ap, ◌∙◌, arith, true, false, ◌||◌, Option, some, List, [],
  ◌∷◌, ◌++◌, set, length, length-append, ltb, leb, ◌==◌, replicate, All,
}
use mathlib.Core.Path.{subst, sym}
use mathlib.Core.List.{append_assoc}
use fast_uuid.Frameless.{
  FunctionEntry, EngineFunction, run_at, table_end, first_slot, overwrite_run, disable_slots,
  disable_for_dl, flf_max,
}
use fast_uuid.Frameless.Cleared.{HasArray, IsUnbound, clear_functions-IsUnbound}
use mathlib.Core.List.{append-nil}
use fast_uuid.Frameless.Runs.{IsEntry, table_end-length, length-snoc, run_at_here}
use fast_uuid.Frameless.Handlers.{all_handlers, flf_handlers_lem}

All-append : (xs ys : List ℕ) → All IsEntry xs → All IsEntry ys → All IsEntry (xs ++ ys)
All-append [] ys h k = k
All-append (x ∷ xs) ys h k = (h.0, All-append xs ys h.1 k)

set-append : (old hs : List ℕ) (x m : ℕ) → set (old ++ x ∷ hs) (length old) m ≡ old ++ m ∷ hs
set-append [] hs x m = refl
set-append (y ∷ old) hs x m = ap (λ zs. y ∷ zs) (set-append old hs x m)

run_at-tail : (hs old : List ℕ) → run_at (old ++ hs) (length old) hs ≡ true
run_at-tail hs old =
    ap (λ zs. run_at (old ++ zs) (length old) hs) (sym (append-nil hs)) ∙ run_at_here hs old []

overwrite_run-tail :
    (m : ℕ) (hs old : List ℕ)
    → overwrite_run m (length hs) (length old) (old ++ hs) ≡ old ++ replicate (length hs) m
unfolding overwrite_run
overwrite_run-tail m [] old = refl
overwrite_run-tail m (x ∷ hs) old =
    ap (overwrite_run m (length hs) (length old + 1)) (set-append old hs x m)
    ∙ subst
        (λ n. overwrite_run m (length hs) n (old ++ m ∷ hs) ≡ old ++ m ∷ replicate (length hs) m)
        (length-snoc old m)
        (ap (overwrite_run m (length hs) (length (old ++ m ∷ [])))
            (sym (append_assoc old (m ∷ []) hs))
          ∙ overwrite_run-tail m hs (old ++ m ∷ [])
          ∙ append_assoc old (m ∷ []) (replicate (length hs) m))

first_slot-tail :
    (old hs : List ℕ)
    → table_end (old ++ hs) ≡ length old + length hs
    → 0 < length hs
    → length old + length hs < 2 ^ 32 - 1
    → first_slot (old ++ hs) hs ≡ some (length old)
unfolding first_slot
first_slot-tail old hs end some_hs small =
    let last : table_end (old ++ hs) - length hs ≡ length old = omega (arith, end) in
    let taken : (length hs == 0
          || ltb (table_end (old ++ hs)) (length hs)
          || leb 4294967295 (table_end (old ++ hs) - length hs))
        ≡ false =
      ground arith in
    let stands : run_at (old ++ hs) (table_end (old ++ hs) - length hs) hs ≡ true =
      subst (λ n. run_at (old ++ hs) n hs ≡ true) (sym last) (run_at-tail hs old) in
    rw (taken, stands) (ap some last)

disable_slots-tail :
    (marker : ℕ) (fes : List FunctionEntry) (old : List ℕ)
    → length (all_handlers fes) ≤ flf_max
    → first_slot (old ++ all_handlers fes) (all_handlers fes) ≡ some (length old)
    → disable_slots marker fes (old ++ all_handlers fes)
      ≡ old ++ replicate (length (all_handlers fes)) marker
unfolding disable_slots
disable_slots-tail marker fes old room slot =
    let counted : leb (length (all_handlers fes)) flf_max ≡ true = ground arith in
    rw (disable_slots, flf_handlers_lem flf_max fes room, counted, slot)
      (ap (λ n. overwrite_run marker n (length old) (old ++ all_handlers fes))
          (ap (λ r. r.1) (flf_handlers_lem flf_max fes room))
        ∙ overwrite_run-tail marker (all_handlers fes) old)

-- Under dl(), where the handlers of the module were just appended to the table, and are 1 to 64: they
-- are all overwritten by the marker, and the entries before them stay as they were. No function of the
-- module that the engine finds is internal and still has the frameless infos of its entry.
pub disable_for_dl_lem :
    (find_ptr_lc : List ℕ → Option ℕ) (marker : ℕ) (fes : List FunctionEntry)
    (fns : List EngineFunction) (old : List ℕ)
    → All (λ fe. HasArray fe.frameless) fes
    → All IsEntry (old ++ all_handlers fes)
    → 0 < length (all_handlers fes)
    → length (all_handlers fes) ≤ flf_max
    → length (old ++ all_handlers fes) < 2 ^ 32 - 1
    → ((disable_for_dl find_ptr_lc marker fes (fns, old ++ all_handlers fes)).1
        ≡ old ++ replicate (length (all_handlers fes)) marker)
      × All
          (IsUnbound find_ptr_lc
            (disable_for_dl find_ptr_lc marker fes (fns, old ++ all_handlers fes)).0)
          fes
unfolding disable_for_dl
disable_for_dl_lem find_ptr_lc marker fes fns old arrays entries some_hs room small =
    let hs = all_handlers fes in
    let count = length-append old hs in
    let slot : first_slot (old ++ hs) hs ≡ some (length old) =
      first_slot-tail old hs (table_end-length (old ++ hs) entries ∙ count) some_hs (omega arith) in
    (
      disable_slots-tail marker fes old room slot,
      clear_functions-IsUnbound find_ptr_lc fes fns arrays,
    )
