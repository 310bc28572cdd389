-- ===== src/Frameless/Handlers.antt =====
-- `fu_flf_handlers` collects the handlers of the module.
use fast_uuid.Common.{
  ℕ, ◌+◌, ◌≤◌, ◌≡◌, ap, ◌∙◌, arith, true, Option, none, some, List, [], ◌∷◌, ◌++◌, length,
  length-append, ltb, if◌then◌else◌,
}
use mathlib.Core.List.{append_assoc, append-nil}
use fast_uuid.Frameless.{FunctionEntry, collect_infos, collect, flf_handlers}

-- The handlers of all functions in registration order.
abbrev pub handlers_of : Option (ℕ × List ℕ) → List ℕ
handlers_of none = []
handlers_of (some (infos, hs)) = hs

abbrev pub all_handlers : List FunctionEntry → List ℕ
all_handlers [] = []
all_handlers (fe ∷ fes) = handlers_of fe.frameless ++ all_handlers fes

-- With room for all, they are written one after the other.
collect_infos_lem :
    (cap : ℕ) (hs out : List ℕ)
    → length out + length hs ≤ cap
    → collect_infos cap hs (out, length out) ≡ (out ++ hs, length (out ++ hs))
unfolding collect_infos
collect_infos_lem cap [] out h = rw (append-nil out)
collect_infos_lem cap (x ∷ hs) out h =
    let room : ltb (length out) cap ≡ true = ground arith in
    let count : length out + 1 ≡ length (out ++ x ∷ []) =
      omega (arith, length-append out (x ∷ [])) in
    rw (room, count)
      (collect_infos_lem cap hs (out ++ x ∷ []) (omega (arith, length-append out (x ∷ [])))
        ∙ rw (append_assoc out (x ∷ []) hs))

-- The count goes on when the room is used up.
collect_infos_count :
    (cap : ℕ) (hs out : List ℕ) (n : ℕ) → (collect_infos cap hs (out, n)).1 ≡ n + length hs
unfolding collect_infos
collect_infos_count cap [] out n = omega arith
collect_infos_count cap (x ∷ hs) out n =
    omega (arith, collect_infos_count cap hs (if ltb n cap then out ++ x ∷ [] else out) (n + 1))

collect_one :
    (cap : ℕ) (o : Option (ℕ × List ℕ)) (out : List ℕ)
    → length out + length (handlers_of o) ≤ cap
    → ◌≡◌ {A = List ℕ × ℕ}
        (elim o [
          | none ↦ (out, length out)
          | some (infos, hs) ↦ collect_infos cap hs (out, length out)
        ])
        (out ++ handlers_of o, length (out ++ handlers_of o))
collect_one cap none out h = rw (append-nil out)
collect_one cap (some (infos, hs)) out h = collect_infos_lem cap hs out h

collect_lem :
    (cap : ℕ) (fes : List FunctionEntry) (out : List ℕ)
    → length out + length (all_handlers fes) ≤ cap
    → collect cap fes (out, length out)
      ≡ (out ++ all_handlers fes, length (out ++ all_handlers fes))
unfolding collect
collect_lem cap [] out h = rw (append-nil out)
collect_lem cap (fe ∷ fes) out h =
    let both : length (all_handlers (fe ∷ fes))
        ≡ length (handlers_of fe.frameless) + length (all_handlers fes) =
      length-append (handlers_of fe.frameless) (all_handlers fes) in
    let one : length (out ++ handlers_of fe.frameless)
        ≡ length out + length (handlers_of fe.frameless) =
      length-append out (handlers_of fe.frameless) in
    ap (collect cap fes) (collect_one cap fe.frameless out (omega arith))
    ∙ collect_lem cap fes (out ++ handlers_of fe.frameless) (omega arith)
    ∙ ap (λ zs. (zs, length zs)) (append_assoc out (handlers_of fe.frameless) (all_handlers fes))

-- `fu_flf_handlers` writes all the handlers, where there is room for them.
pub flf_handlers_lem :
    (cap : ℕ) (fes : List FunctionEntry)
    → length (all_handlers fes) ≤ cap
    → flf_handlers cap fes ≡ (all_handlers fes, length (all_handlers fes))
unfolding flf_handlers
flf_handlers_lem cap fes h = collect_lem cap fes [] (omega arith)
