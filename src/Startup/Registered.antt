-- ===== src/Startup/Registered.antt =====
-- The classes after a start of the module.
use fast_uuid.Common.{ℕ, ◌≡◌, refl, Bool, true, false, Option, none, some, List, [], ◌∷◌, ◌++◌}
use fast_uuid.Startup.{
  Platform, Statics, Class, Warning, uuid_interface, uuid_value_interface, uuid, uuid_exception,
  invalid_argument, invalid_uuid_string, unsupported_operation, not_registered, or_fail,
  start_exceptions, start_classes,
}

module _ (p : Platform) where
  -- The classes that the statics name are registered under their parents.
  pub record IsRegistered (m : Statics) : Type 0 where
    pub marker : ℕ
    pub iface : ℕ
    pub ce : ℕ
    pub exc : ℕ
    pub arg : ℕ
    pub str : ℕ
    pub uns : ℕ
    pub marker_under :
        p.register_class uuid_interface (p.json_serializable_ce ∷ p.stringable_ce ∷ [])
        ≡ some marker
    pub iface_under : p.register_class uuid_value_interface (marker ∷ []) ≡ some iface
    pub ce_under : p.register_class uuid (iface ∷ []) ≡ some ce
    pub exc_under : p.register_class uuid_exception (p.throwable_ce ∷ []) ≡ some exc
    pub arg_under :
        p.register_class invalid_argument (p.spl_invalid_argument_ce ∷ exc ∷ []) ≡ some arg
    pub str_under : p.register_class invalid_uuid_string (arg ∷ exc ∷ []) ≡ some str
    pub uns_under : p.register_class unsupported_operation (p.spl_logic_ce ∷ exc ∷ []) ≡ some uns
    pub uuid_static : m.uuid_ce ≡ some ce
    pub arg_static : m.ex_invalid_arg ≡ some arg
    pub str_static : m.ex_invalid_str ≡ some str
    pub uns_static : m.ex_unsupported ≡ some uns
    pub handlers : m.handlers_set ≡ true

  -- SUCCESS with the classes registered, or FAILURE with a warning that names one that was not.
  abbrev pub Ended : Bool × Statics → Type 0
  Ended (true, m) = IsRegistered m
  Ended (false, m) =
      (c : Class) × (parents : List ℕ) × (before : List Warning) × (p.register_class c parents
        ≡ none)
      × (m.warnings ≡ before ++ not_registered c ∷ [])

  or_fail-Ended :
      (c : Class) (parents : List ℕ) (m : Statics) (k : ℕ → Statics → Bool × Statics)
      → ((ce : ℕ) → p.register_class c parents ≡ some ce → Ended (k ce m))
      → Ended (or_fail c (p.register_class c parents) m k)
  or_fail-Ended c parents m k h = go (p.register_class c parents) refl
    where
      go : (o : Option ℕ) → p.register_class c parents ≡ o → Ended (or_fail c o m k)
      go none e = (c, parents, m.warnings, e, refl)
      go (some ce) e = h ce e

  start_exceptions-Ended :
      (m : Statics) (marker iface ce : ℕ)
      → p.register_class uuid_interface (p.json_serializable_ce ∷ p.stringable_ce ∷ [])
        ≡ some marker
      → p.register_class uuid_value_interface (marker ∷ []) ≡ some iface
      → p.register_class uuid (iface ∷ []) ≡ some ce
      → m.uuid_ce ≡ some ce
      → m.handlers_set ≡ true
      → Ended (start_exceptions p m)
  unfolding start_exceptions
  start_exceptions-Ended m marker iface ce em ei eu st hs =
      or_fail-Ended uuid_exception (p.throwable_ce ∷ []) m _ λ exc e1.
        or_fail-Ended invalid_argument (p.spl_invalid_argument_ce ∷ exc ∷ []) _ _ λ arg e2.
          or_fail-Ended invalid_uuid_string (arg ∷ exc ∷ []) _ _ λ str e3.
            or_fail-Ended unsupported_operation (p.spl_logic_ce ∷ exc ∷ []) _ _ λ uns e4. record {
              marker = marker;
              iface = iface;
              ce = ce;
              exc = exc;
              arg = arg;
              str = str;
              uns = uns;
              marker_under = em;
              iface_under = ei;
              ce_under = eu;
              exc_under = e1;
              arg_under = e2;
              str_under = e3;
              uns_under = e4;
              uuid_static = st;
              arg_static = e2;
              str_static = e3;
              uns_static = e4;
              handlers = hs;
            }

  pub start_classes-Ended : (m : Statics) → Ended (start_classes p m)
  unfolding start_classes
  start_classes-Ended m =
      or_fail-Ended uuid_interface (p.json_serializable_ce ∷ p.stringable_ce ∷ []) m _ λ marker e1.
        or_fail-Ended uuid_value_interface (marker ∷ []) m _ λ iface e2.
          or_fail-Ended uuid (iface ∷ []) _ _
            λ ce e3. start_exceptions-Ended _ marker iface ce e1 e2 e3 e3 refl
