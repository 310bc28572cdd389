-- ===== src/Startup.antt =====
-- fast_uuid.c, `PHP_MINIT_FUNCTION`: what a start of the module does to the statics of the file and to
-- the engine. The filling of the two digit tables stands in `Hex`.
pub mod Registered
pub mod Started
use fast_uuid.Common.{
  ℕ, ◌+◌, Bool, true, false, not, ◌&&◌, Option, none, some, List, [], ◌∷◌, ◌++◌, if◌then◌else◌,
}
use fast_uuid.Common.Int.{ℤ}
use fast_uuid.State.{AesState}
use fast_uuid.SelfTest.{aes_state_of}
use fast_uuid.Compare.{is_zero_ℤ}
use fast_uuid.Frameless.{FunctionEntry, EngineFunction, system_key, disable_for_dl}

-- What the preprocessor decides: `PHP_VERSION_ID >= 80400`, `PHP_WIN32` is not defined, Linux without
-- glibc, `FU_X86` and `FU_HAVE_AES`.
pub record Build : Type 0 where
  pub has_frameless : Bool
  pub is_posix : Bool
  pub is_musl : Bool
  pub is_x86 : Bool
  pub have_aes : Bool

-- The classes that the module registers.
pub data Class : Type 0 where
  uuid_interface uuid_value_interface uuid : Class
  uuid_exception invalid_argument invalid_uuid_string unsupported_operation : Class

-- What a start meets. `register_class` gives the entry of a class with the entries of its parents,
-- where `none` is NULL. `kernel32` is what `GetProcAddress` gives, where the library has a handle.
pub record Platform : Type 0 where
  pub temporary : Bool
  pub entry_temporary : Bool
  pub find_ptr_lc : List ℕ → Option ℕ
  pub marker : ℕ
  pub ext_functions : List FunctionEntry
  pub pthread_atfork : ℤ
  pub kernel32 : Option (Option ℕ)
  pub detect_ssse3 : Bool
  pub detect_aes : ℤ
  pub aes : List ℕ → List ℕ → List ℕ
  pub register_class : Class → List ℕ → Option ℕ
  pub json_serializable_ce : ℕ
  pub stringable_ce : ℕ
  pub throwable_ce : ℕ
  pub spl_invalid_argument_ce : ℕ
  pub spl_logic_ce : ℕ

-- The warnings of `php_error_docref`.
pub data Warning : Type 0 where
  atfork_failed dl_unsupported : Warning
  not_registered : Class → Warning

-- The statics, and the engine's parts that a start writes. `atfork_handlers` counts the registrations
-- that succeeded.
pub record Statics : Type 0 where
  pub engine : List EngineFunction × List ℕ
  pub system_keys : List (ℕ × ℕ)
  pub atfork_registered : Bool
  pub atfork_handlers : ℕ
  pub precise_time : Option ℕ
  pub has_ssse3 : Bool
  pub aes_state : AesState
  pub uuid_ce : Option ℕ
  pub handlers_set : Bool
  pub ex_invalid_arg : Option ℕ
  pub ex_invalid_str : Option ℕ
  pub ex_unsupported : Option ℕ
  pub warnings : List Warning

abbrev pub warn : Warning → Statics → Statics
warn w m = record m { warnings = m.warnings ++ w ∷ [] }

module _ (b : Build) (p : Platform) where
  unfoldable pub start_slots : Statics → Statics
  start_slots m =
      if not b.has_frameless
      then m
      else if p.temporary
      then record m { engine = disable_for_dl p.find_ptr_lc p.marker p.ext_functions m.engine }
      else record m { system_keys = m.system_keys ++ system_key p.ext_functions m.engine.1 ∷ [] }

  -- The call of `pthread_atfork`, and the latch.
  unfoldable pub register_atfork : Statics → Statics
  register_atfork m =
      if is_zero_ℤ p.pthread_atfork
      then record m { atfork_registered = true; atfork_handlers = m.atfork_handlers + 1 }
      else warn atfork_failed m

  unfoldable pub start_atfork : Statics → Statics
  unfolding register_atfork
  start_atfork m =
      if not b.is_posix
      then elim p.kernel32 [ none ↦ m | some f ↦ record m { precise_time = f } ]
      else if m.atfork_registered
      then m
      else if b.is_musl && p.entry_temporary
      then warn dl_unsupported (register_atfork m)
      else register_atfork m

  unfoldable pub start_probes : Statics → Statics
  start_probes m = record m {
    has_ssse3 = if b.is_x86 then p.detect_ssse3 else m.has_ssse3;
    aes_state = if b.have_aes then aes_state_of p.aes p.detect_aes else m.aes_state;
  }

-- The test behind every registration, with what follows it; true is SUCCESS.
abbrev pub or_fail : Class → Option ℕ → Statics → (ℕ → Statics → Bool × Statics) → Bool × Statics
or_fail c none m k = (false, warn (not_registered c) m)
or_fail c (some ce) m k = k ce m

module _ (p : Platform) where
  -- The exceptions.
  unfoldable pub start_exceptions : Statics → Bool × Statics
  start_exceptions m =
      or_fail uuid_exception (p.register_class uuid_exception (p.throwable_ce ∷ [])) m (λ exc m0.
        let arg = p.register_class invalid_argument (p.spl_invalid_argument_ce ∷ exc ∷ []) in
        or_fail invalid_argument arg (record m0 { ex_invalid_arg = arg })
          (λ arg_ce m1.
            let str = p.register_class invalid_uuid_string (arg_ce ∷ exc ∷ []) in
            or_fail invalid_uuid_string str (record m1 { ex_invalid_str = str })
              (λ str_ce m2.
                let uns = p.register_class unsupported_operation (p.spl_logic_ce ∷ exc ∷ []) in
                or_fail unsupported_operation uns (record m2 { ex_unsupported = uns })
                  (λ uns_ce m3. (true, m3)))))

  unfoldable pub start_classes : Statics → Bool × Statics
  unfolding start_exceptions
  start_classes m =
      or_fail uuid_interface
        (p.register_class uuid_interface (p.json_serializable_ce ∷ p.stringable_ce ∷ [])) m
        (λ marker m0.
          or_fail uuid_value_interface (p.register_class uuid_value_interface (marker ∷ [])) m0
            (λ iface m1.
              let ce = p.register_class uuid (iface ∷ []) in
              or_fail uuid ce (record m1 { uuid_ce = ce })
                (λ uuid_entry m2. start_exceptions (record m2 { handlers_set = true }))))

-- `PHP_MINIT_FUNCTION`
unfoldable pub minit : Build → Platform → Statics → Bool × Statics
unfolding start_slots start_atfork start_probes start_classes
minit b p m = start_classes p (start_probes b p (start_atfork b p (start_slots b p m)))
