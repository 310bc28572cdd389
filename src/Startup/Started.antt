-- ===== src/Startup/Started.antt =====
-- What holds after a start of the module.
use fast_uuid.Common.{
  ℕ, zero, suc, ◌+◌, ◌≡◌, refl, arith, Bool, true, false, not, ◌&&◌, ◌||◌, Option, none, some, List,
  [], ◌∷◌, ◌++◌, if◌then◌else◌, length,
}
use fast_uuid.Common.Int.{ℤ, pos, negsuc}
use mathlib.Core.Path.{subst, sym}
use fast_uuid.State.{AesState, not_built, no_cpu, no_detect, selftest_failed, active}
use fast_uuid.SelfTest.{
  aes_state_of, aes_selftest, fips_key, fips_pt, fips_ct, sp_key, sp_in, sp_out,
}
use fast_uuid.SelfTest.Answers.{aes_selftest_iff}
use fast_uuid.Compare.{is_zero_ℤ}
use fast_uuid.Frameless.{system_key, disable_for_dl}
use fast_uuid.Startup.Registered.{Ended, start_classes-Ended}
use fast_uuid.Startup.{
  Build, Platform, Statics, Class, Warning, uuid_interface, uuid_value_interface, uuid,
  uuid_exception, invalid_argument, invalid_uuid_string, unsupported_operation, atfork_failed,
  dl_unsupported, not_registered, warn, start_slots, register_atfork, start_atfork, start_probes,
  or_fail, start_exceptions, start_classes, minit,
}

-- The backend is active only where the cipher gives the two published answers.
abbrev pub Trusted : (List ℕ → List ℕ → List ℕ) → AesState → Type 0
Trusted aes active = (aes fips_key fips_pt ≡ fips_ct) × (aes sp_key sp_in ≡ sp_out)
Trusted aes not_built = Unit {0}
Trusted aes no_cpu = Unit {0}
Trusted aes no_detect = Unit {0}
Trusted aes selftest_failed = Unit {0}

-- One handler is registered behind the latch, and none before it.
abbrev pub OneHandler : Bool → ℕ → Type 0
OneHandler latch n = n ≡ (if latch then 1 else 0)

abbrev is_atfork_failed : Warning → Bool
is_atfork_failed atfork_failed = true
is_atfork_failed dl_unsupported = false
is_atfork_failed (not_registered c) = false

-- A warning that the registration of the fork handler failed was given.
abbrev pub warned : List Warning → Bool
warned [] = false
warned (w ∷ ws) = is_atfork_failed w || warned ws

warned-append : (ws : List Warning) (w : Warning) → warned ws ≡ true → warned (ws ++ w ∷ []) ≡ true
warned-append [] w h = absurd (ground (arith, h))
warned-append (x ∷ ws) w h = ground (arith, h, warned-append ws w)

warned-last : (ws : List Warning) → warned (ws ++ atfork_failed ∷ []) ≡ true
warned-last [] = refl
warned-last (x ∷ ws) = ground (arith, warned-last ws)

module _ (b : Build) (aes : List ℕ → List ℕ → List ℕ) where
  -- The latch counts the handlers, and an active backend gives the published answers.
  abbrev pub IsSound : Statics → Type 0
  IsSound m = OneHandler m.atfork_registered m.atfork_handlers × Trusted aes m.aes_state

  -- On POSIX the fork handler is registered, or its failure was warned about.
  abbrev pub IsGuarded : Statics → Type 0
  IsGuarded m = (not b.is_posix || m.atfork_registered || warned m.warnings) ≡ true

  -- Both, after a start.
  abbrev pub IsReady : Statics → Type 0
  IsReady m = IsSound m × IsGuarded m

  module _ (size : (key block : List ℕ) → length (aes key block) ≡ 16) where
    aes_state_of-Trusted : (detected : ℤ) → Trusted aes (aes_state_of aes detected)
    unfolding aes_state_of
    aes_state_of-Trusted (negsuc n) = tt
    aes_state_of-Trusted (pos zero) = tt
    aes_state_of-Trusted (pos (suc n)) = passed (aes_selftest aes) refl
      where
        passed :
            (t : Bool)
            → aes_selftest aes ≡ t
            → Trusted aes (if not t then selftest_failed else active)
        passed false e = tt
        passed true e = (aes_selftest_iff aes size).0 e

  warn-IsReady : (w : Warning) (m : Statics) → IsReady m → IsReady (warn w m)
  warn-IsReady w m h = (h.0, ground (arith, h.1, warned-append m.warnings w))

  record EndsReady (r : Bool × Statics) : Type 0 where
    ready : IsReady r.1

  or_fail-EndsReady :
      (c : Class) (o : Option ℕ) (m : Statics) (k : ℕ → Statics → Bool × Statics)
      → IsReady m
      → ((ce : ℕ) → EndsReady (k ce m))
      → EndsReady (or_fail c o m k)
  or_fail-EndsReady c none m k h f = record { ready = warn-IsReady (not_registered c) m h }
  or_fail-EndsReady c (some ce) m k h f = f ce

  module _ (size : (key block : List ℕ) → length (aes key block) ≡ 16) (p : Platform) where
    start_exceptions-EndsReady : (m : Statics) → IsReady m → EndsReady (start_exceptions p m)
    unfolding start_exceptions
    start_exceptions-EndsReady m h =
        or_fail-EndsReady uuid_exception (p.register_class uuid_exception (p.throwable_ce ∷ [])) m _
          h
          λ exc.
            let arg_o = p.register_class invalid_argument (p.spl_invalid_argument_ce ∷ exc ∷ []) in
            let m1 : Statics = record m { ex_invalid_arg = arg_o } in
            or_fail-EndsReady invalid_argument arg_o m1 _ h λ arg.
              let str_o = p.register_class invalid_uuid_string (arg ∷ exc ∷ []) in
              let m2 : Statics = record m1 { ex_invalid_str = str_o } in
              or_fail-EndsReady invalid_uuid_string str_o m2 _ h λ str.
                let uns_o = p.register_class unsupported_operation (p.spl_logic_ce ∷ exc ∷ []) in
                let m3 : Statics = record m2 { ex_unsupported = uns_o } in
                or_fail-EndsReady unsupported_operation uns_o m3 _ h λ uns. record { ready = h }

    start_classes-EndsReady : (m : Statics) → IsReady m → EndsReady (start_classes p m)
    unfolding start_classes
    start_classes-EndsReady m h =
        or_fail-EndsReady uuid_interface
          (p.register_class uuid_interface (p.json_serializable_ce ∷ p.stringable_ce ∷ [])) m _ h
          λ marker.
            or_fail-EndsReady uuid_value_interface
              (p.register_class uuid_value_interface (marker ∷ [])) m _ h
              λ iface.
                let ce_o = p.register_class uuid (iface ∷ []) in
                let m1 : Statics = record m { uuid_ce = ce_o } in
                or_fail-EndsReady uuid ce_o m1 _ h
                  λ ce. start_exceptions-EndsReady (record m1 { handlers_set = true }) h

    register_atfork-IsReady :
        (m : Statics) → m.atfork_registered ≡ false → IsSound m → IsReady (register_atfork b p m)
    unfolding register_atfork
    register_atfork-IsReady m off h = registered (is_zero_ℤ p.pthread_atfork)
      where
        none_yet : m.atfork_handlers ≡ 0
        none_yet = subst (λ t. OneHandler t m.atfork_handlers) off h.0

        registered :
            (t : Bool)
            → IsReady (
                if t
                then record m { atfork_registered = true; atfork_handlers = m.atfork_handlers + 1 }
                else warn atfork_failed m)
        registered true = ((omega (arith, none_yet), h.1), ground arith)
        registered false = (h, ground (arith, warned-last m.warnings))

    start_slots-IsSound : (m : Statics) → IsSound m → IsSound (start_slots b p m)
    unfolding start_slots
    start_slots-IsSound m h = either b.has_frameless p.temporary
      where
        either :
            (t u : Bool)
            → IsSound (
                if not t
                then m
                else if u
                then record m {
                  engine = disable_for_dl p.find_ptr_lc p.marker p.ext_functions m.engine;
                }
                else record m {
                  system_keys = m.system_keys ++ system_key p.ext_functions m.engine.1 ∷ [];
                })
        either false u = h
        either true true = h
        either true false = h

    start_atfork-IsReady : (m : Statics) → IsSound m → IsReady (start_atfork b p m)
    unfolding start_atfork
    start_atfork-IsReady m h =
        go b.is_posix refl m.atfork_registered refl (b.is_musl && p.entry_temporary)
      where
        go :
            (t : Bool)
            → b.is_posix ≡ t
            → (u : Bool) → m.atfork_registered ≡ u
            → (v : Bool)
            → IsReady (
                if not t
                then elim p.kernel32 [ none ↦ m | some f ↦ record m { precise_time = f } ]
                else if u
                then m
                else if v
                then warn dl_unsupported (register_atfork b p m)
                else register_atfork b p m)
        go false e u e' v = windows p.kernel32
          where
            windows :
                (o : Option (Option ℕ))
                → IsReady (elim o [ none ↦ m | some f ↦ record m { precise_time = f } ])
            windows none = (h, ground (arith, e))
            windows (some f) = (h, ground (arith, e))
        go true e true e' v = (h, ground (arith, e'))
        go true e false e' true =
            warn-IsReady dl_unsupported (register_atfork b p m) (register_atfork-IsReady m e' h)
        go true e false e' false = register_atfork-IsReady m e' h

    start_probes-IsReady : (m : Statics) → p.aes ≡ aes → IsReady m → IsReady (start_probes b p m)
    unfolding start_probes
    start_probes-IsReady m same h = ((h.0.0, trusted b.have_aes), h.1)
      where
        trusted :
            (t : Bool) → Trusted aes (if t then aes_state_of p.aes p.detect_aes else m.aes_state)
        trusted false = h.0.1
        trusted true =
            subst (λ f. Trusted aes (aes_state_of f p.detect_aes)) (sym same)
              (aes_state_of-Trusted size p.detect_aes)

-- For a cipher of blocks of sixteen bytes: where the latch counts the registered fork handlers, one or
-- none, and an active backend gives the two published AES answers, a start of the module keeps both;
-- on POSIX it leaves the fork handler registered, or a warning that this failed was given; and it ends
-- with SUCCESS and the classes registered under their parents and kept in the statics, or with FAILURE
-- and a last warning that names a class that could not be registered.
pub minit-Started :
    (b : Build) (p : Platform) (m : Statics)
    → ((key block : List ℕ) → length (p.aes key block) ≡ 16)
    → IsSound b p.aes m
    → IsReady b p.aes (minit b p m).1 × Ended p (minit b p m)
unfolding minit
minit-Started b p m size h =
    let slots = start_slots-IsSound b p.aes size p m h in
    let atfork = start_atfork-IsReady b p.aes size p (start_slots b p m) slots in
    let n : Statics = start_probes b p (start_atfork b p (start_slots b p m)) in
    let probes =
      start_probes-IsReady b p.aes size p (start_atfork b p (start_slots b p m)) refl atfork in
    ((start_classes-EndsReady b p.aes size p n probes).ready, start_classes-Ended p n)
