-- ===== src/Frameless/Cleared.antt =====
-- The functions after `fu_flf_disable_for_dl`: the compiler binds none of the module's to its handlers.
use fast_uuid.Common.{
  ℕ, zero, suc, ◌≡◌, ◌≢◌, refl, arith, Bool, true, false, ◌&&◌, Option, none, some, List, [], ◌∷◌,
  All, get_elem?, set, ◌==◌, if◌then◌else◌, Bool-cases, inl, inr,
}
use mathlib.Core.Path.{subst, sym, ap}
use fast_uuid.Frameless.{FunctionEntry, EngineFunction, clear_infos, clear_at, clear_functions}

-- The place holds no internal function with these infos.
abbrev pub Unbound : ℕ → Option EngineFunction → Type 0
Unbound infos none = Unit {0}
Unbound infos (some fn) = (fn.is_internal && fn.frameless_infos == infos) ≡ false

-- The function of an entry, where the engine finds one, does not have the infos of the entry.
abbrev pub UnboundIn : List EngineFunction → Option (ℕ × List ℕ) → Option ℕ → Type 0
UnboundIn fns none i = Unit {0}
UnboundIn fns (some (infos, hs)) none = Unit {0}
UnboundIn fns (some (infos, hs)) (some i) = Unbound infos (get_elem? fns i)

-- The infos of an entry are an array.
abbrev pub HasArray : Option (ℕ × List ℕ) → Type 0
HasArray none = Unit {0}
HasArray (some (infos, hs)) = infos ≢ 0

clear_infos-Unbound :
    (infos : ℕ) (fn : EngineFunction) → infos ≢ 0 → Unbound infos (some (clear_infos infos fn))
unfolding clear_infos
clear_infos-Unbound infos fn h = elim (Bool-cases (fn.is_internal && fn.frameless_infos == infos)) [
  | inl e ↦
      subst (λ t. Unbound infos (some (if t then record fn { frameless_infos = 0 } else fn)))
        (sym e) (ground (arith, h))
  | inr e ↦
      subst (λ t. Unbound infos (some (if t then record fn { frameless_infos = 0 } else fn)))
        (sym e) e
]

clear_infos-keeps :
    (infos other : ℕ) (fn : EngineFunction)
    → infos ≢ 0
    → Unbound infos (some fn)
    → Unbound infos (some (clear_infos other fn))
unfolding clear_infos
clear_infos-keeps infos other fn h k = if_rule (fn.is_internal && fn.frameless_infos == other)
  where
    if_rule :
        (t : Bool) → Unbound infos (some (if t then record fn { frameless_infos = 0 } else fn))
    if_rule true = ground (arith, h)
    if_rule false = k

module _ (infos : ℕ) (array : infos ≢ 0) where
  set-Unbound :
      (fns : List EngineFunction) (i : ℕ) (fn : EngineFunction)
      → Unbound infos (some fn)
      → Unbound infos (get_elem? (set fns i fn) i)
  set-Unbound [] i fn h = tt
  set-Unbound (x ∷ fns) zero fn h = h
  set-Unbound (x ∷ fns) (suc i) fn h = set-Unbound fns i fn h

  set-keeps :
      (other : ℕ) (fns : List EngineFunction) (i j : ℕ) (fn : EngineFunction)
      → get_elem? fns i ≡ some fn
      → Unbound infos (get_elem? fns j)
      → Unbound infos (get_elem? (set fns i (clear_infos other fn)) j)
  set-keeps other [] i j fn e k = k
  set-keeps other (x ∷ fns) zero zero fn e k =
      clear_infos-keeps infos other fn array (subst (Unbound infos) e k)
  set-keeps other (x ∷ fns) zero (suc j) fn e k = k
  set-keeps other (x ∷ fns) (suc i) zero fn e k = k
  set-keeps other (x ∷ fns) (suc i) (suc j) fn e k = set-keeps other fns i j fn e k

  clear_at-Unbound :
      (fns : List EngineFunction) (i : ℕ) → Unbound infos (get_elem? (clear_at infos i fns) i)
  unfolding clear_at
  clear_at-Unbound fns i = found (get_elem? fns i) refl
    where
      found :
          (o : Option EngineFunction)
          → get_elem? fns i ≡ o
          → Unbound infos
              (get_elem? (elim o [ none ↦ fns | some fn ↦ set fns i (clear_infos infos fn) ]) i)
      found none e = subst (Unbound infos) (sym e) tt
      found (some fn) e =
          set-Unbound fns i (clear_infos infos fn) (clear_infos-Unbound infos fn array)

  clear_at-keeps :
      (other : ℕ) (fns : List EngineFunction) (i j : ℕ)
      → Unbound infos (get_elem? fns j)
      → Unbound infos (get_elem? (clear_at other i fns) j)
  unfolding clear_at
  clear_at-keeps other fns i j k = found (get_elem? fns i) refl
    where
      found :
          (o : Option EngineFunction)
          → get_elem? fns i ≡ o
          → Unbound infos
              (get_elem? (elim o [ none ↦ fns | some fn ↦ set fns i (clear_infos other fn) ]) j)
      found none e = k
      found (some fn) e = set-keeps other fns i j fn e k

module _ (find_ptr_lc : List ℕ → Option ℕ) where
  -- One round of the first loop.
  abbrev clear_entry : Option (ℕ × List ℕ) → Option ℕ → List EngineFunction → List EngineFunction
  clear_entry none i fns = fns
  clear_entry (some (infos, hs)) none fns = fns
  clear_entry (some (infos, hs)) (some i) fns = clear_at infos i fns

  clear_functions_step :
      (fe : FunctionEntry) (fes : List FunctionEntry) (fns : List EngineFunction)
      → clear_functions find_ptr_lc (fe ∷ fes) fns
        ≡ clear_functions find_ptr_lc fes (clear_entry fe.frameless (find_ptr_lc fe.fname) fns)
  unfolding clear_functions
  clear_functions_step fe fes fns =
      ap (clear_functions find_ptr_lc fes) (entry fe.frameless (find_ptr_lc fe.fname))
    where
      entry :
          (o : Option (ℕ × List ℕ)) (p : Option ℕ)
          → ◌≡◌ {A = List EngineFunction}
              (elim o [
                | none ↦ fns
                | some (infos, hs) ↦ elim p [ none ↦ fns | some i ↦ clear_at infos i fns ]
              ])
              (clear_entry o p fns)
      entry none p = refl
      entry (some (infos, hs)) none = refl
      entry (some (infos, hs)) (some i) = refl

  clear_entry-UnboundIn :
      (o : Option (ℕ × List ℕ)) (p : Option ℕ) (fns : List EngineFunction)
      → HasArray o
      → UnboundIn (clear_entry o p fns) o p
  clear_entry-UnboundIn none p fns h = tt
  clear_entry-UnboundIn (some (infos, hs)) none fns h = tt
  clear_entry-UnboundIn (some (infos, hs)) (some i) fns h = clear_at-Unbound infos h fns i

  clear_at-keeps_in :
      (other i : ℕ) (o : Option (ℕ × List ℕ)) (p : Option ℕ) (fns : List EngineFunction)
      → HasArray o
      → UnboundIn fns o p
      → UnboundIn (clear_at other i fns) o p
  clear_at-keeps_in other i none p fns h k = tt
  clear_at-keeps_in other i (some (infos, hs)) none fns h k = tt
  clear_at-keeps_in other i (some (infos, hs)) (some j) fns h k =
      clear_at-keeps infos h other fns i j k

  clear_entry-keeps :
      (o' : Option (ℕ × List ℕ)) (p' : Option ℕ) (o : Option (ℕ × List ℕ)) (p : Option ℕ)
      (fns : List EngineFunction)
      → HasArray o
      → UnboundIn fns o p
      → UnboundIn (clear_entry o' p' fns) o p
  clear_entry-keeps none p' o p fns h k = k
  clear_entry-keeps (some (infos, hs)) none o p fns h k = k
  clear_entry-keeps (some (infos, hs)) (some i) o p fns h k = clear_at-keeps_in infos i o p fns h k

  clear_functions-keeps :
      (fes : List FunctionEntry) (o : Option (ℕ × List ℕ)) (p : Option ℕ)
      (fns : List EngineFunction)
      → HasArray o
      → UnboundIn fns o p
      → UnboundIn (clear_functions find_ptr_lc fes fns) o p
  unfolding clear_functions
  clear_functions-keeps [] o p fns h k = k
  clear_functions-keeps (fe ∷ fes) o p fns h k =
      subst (λ r. UnboundIn r o p) (sym (clear_functions_step fe fes fns))
        (clear_functions-keeps fes o p _ h
          (clear_entry-keeps fe.frameless (find_ptr_lc fe.fname) o p fns h k))

  -- The function of the entry does not have the infos of the entry.
  abbrev pub IsUnbound : List EngineFunction → FunctionEntry → Type 0
  IsUnbound fns fe = UnboundIn fns fe.frameless (find_ptr_lc fe.fname)

  -- After the loop this holds of every entry.
  pub clear_functions-IsUnbound :
      (fes : List FunctionEntry) (fns : List EngineFunction)
      → All (λ fe. HasArray fe.frameless) fes
      → All (IsUnbound (clear_functions find_ptr_lc fes fns)) fes
  clear_functions-IsUnbound [] fns h = tt
  clear_functions-IsUnbound (fe ∷ fes) fns h =
      let r = clear_entry fe.frameless (find_ptr_lc fe.fname) fns in
      let e = clear_functions_step fe fes fns in
      (
        subst (λ t. IsUnbound t fe) (sym e)
            (clear_functions-keeps fes fe.frameless (find_ptr_lc fe.fname) r h.0
              (clear_entry-UnboundIn fe.frameless (find_ptr_lc fe.fname) fns h.0)),
        subst (λ t. All (IsUnbound t) fes) (sym e) (clear_functions-IsUnbound fes r h.1),
      )
