-- ===== src/Tests/Starts.antt =====
-- The theorem on starts of the module applied to a concrete platform.
use fast_uuid.Common.{ℕ, refl, true, false, Option, none, some, List, [], replicate}
use fast_uuid.Common.Int.{pos}
use fast_uuid.State.{not_built}
use fast_uuid.Startup.{
  Build, Platform, Statics, Class, unsupported_operation, minit, uuid_interface,
  uuid_value_interface, uuid, uuid_exception, invalid_argument, invalid_uuid_string,
}
use fast_uuid.Startup.Registered.{Ended}
use fast_uuid.Startup.Started.{IsReady, minit-Started}
use fast_uuid.Tests.Params.{length-replicate}

-- Linux on x86 with PHP 8.4.
abbrev build : Build
build = record {
  has_frameless = true;
  is_posix = true;
  is_musl = false;
  is_x86 = true;
  have_aes = true;
}

-- An engine that refuses the last class.
abbrev register_class : Class → List ℕ → Option ℕ
register_class unsupported_operation parents = none
register_class uuid_interface parents = some 1
register_class uuid_value_interface parents = some 2
register_class uuid parents = some 3
register_class uuid_exception parents = some 4
register_class invalid_argument parents = some 5
register_class invalid_uuid_string parents = some 6

abbrev platform : Platform
platform = record {
  temporary = false;
  entry_temporary = false;
  find_ptr_lc = λ name. none;
  marker = 5;
  ext_functions = [];
  pthread_atfork = pos 12;
  kernel32 = none;
  detect_ssse3 = true;
  detect_aes = pos 1;
  aes = λ key block. replicate 16 7;
  register_class = register_class;
  json_serializable_ce = 11;
  stringable_ce = 12;
  throwable_ce = 13;
  spl_invalid_argument_ce = 14;
  spl_logic_ce = 15;
}

-- The statics before the first start.
abbrev fresh : Statics
fresh = record {
  engine = ([], []);
  system_keys = [];
  atfork_registered = false;
  atfork_handlers = 0;
  precise_time = none;
  has_ssse3 = false;
  aes_state = not_built;
  uuid_ce = none;
  handlers_set = false;
  ex_invalid_arg = none;
  ex_invalid_str = none;
  ex_unsupported = none;
  warnings = [];
}

minit-Started_example :
    IsReady build platform.aes (minit build platform fresh).1
    × Ended platform (minit build platform fresh)
minit-Started_example =
    minit-Started build platform fresh (λ key block. length-replicate 16 7) (refl, tt)
