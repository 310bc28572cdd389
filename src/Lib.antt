-- ===== src/Lib.antt =====
-- fast_uuid: the PHP extension that generates, formats, parses and decodes UUIDs.
--
-- The program is one C file, `fast_uuid.c`, with the module globals in `php_fast_uuid.h`. A call of
-- the extension reads its arguments, reads the clock and draws random bytes, updates marks in the
-- globals of the thread, lays out sixteen bytes and returns them, as text or raw. The parts:
--
-- - Uuid, Hex: the array of sixteen bytes, `fu_set_ver_var`, the tables `fu_lut` and `fu_nib_lut` as
--   MINIT fills them, and the formatters `fu_hex32_scalar` and `fu_format36`. Hex.Simd:
--   `fu_hex32_ssse3`, `fu_hex32_neon` and `fu_hex32`, where the compiler's intrinsics are parameters
--   with what their manuals say.
-- - Zend, Parse: `fu_parse`. The text comparison of the engine is a parameter, with the law that it
--   is 0 for texts that differ in case at most.
-- - State: the globals as a record, exceptions as values, and the calls out of the program as the
--   parameter `Os`: random bytes, the wall clock and AES on one block. Draws and clock readings are
--   numbered, so that each may answer differently; the laws are sizes and ranges only.
-- - Ctr: the loops of `fu_aes_ctr`, where one block of AES is a parameter. Aes: AES-256 as FIPS-197
--   defines it; Aes.Ni and Aes.Armv8: `fu_aes_expand`, the rounds and `fu_aes_ctr` of both backends,
--   where the intrinsics are parameters with what their manuals say; the other children prove the
--   key schedules and the rounds. SelfTest: `fu_aes_selftest` and the backend that MINIT chooses.
-- - Random: `fu_drbg_fill`, `fu_rand_fill`, `fu_rand`, `fu_rand_u64`, `fu_xs_next`,
--   `fu_atfork_child` and the initial globals.
-- - Clock: `fu_unix_nanos` on POSIX and on Windows, `fu_greg_now`, `fu_greg_monotonic`,
--   `fu_v2_monotonic`.
-- - Layout: the byte layouts of versions 1, 2, 6 and 7, and `fu_decode_time`.
-- - Generate: `fu_gen_v1`, `fu_gen_v6`, `fu_gen_v2`, `fu_gen_v4`, `fu_gen_v4_fast`, `fu_gen_v3`,
--   `fu_gen_v5`, `fu_gen_v8`. MD5 and SHA-1 are parameters.
-- - V7: `fu_gen_v7`, `fu_gen_v7_at`, `fu_v7_at_ms`, `fu_gen_v7_batch_n`.
-- - Decimal: `fu_to_decimal` and `fu_from_decimal`.
-- - Resolve: `fu_resolve_uuid`, and `fu_type_may_return` with what uses it. The class table is a
--   parameter, and a foreign object holds what calls of its methods end with.
-- - Compare: `fu_compare`, `equals` and `compareTo`. DateTime: `fu_dt_secs_micros`,
--   `fu_make_datetime` and `getDateTime`, where the date extension is a parameter.
-- - Args, Object, Methods, Functions: the checks on arguments, the object with its kept text, the
--   factory methods (`uuid1` to `uuid8`, and the `from` methods) and the procedural functions with
--   their batches. The engine's reading of the arguments is left out; `uuid7` and `fromDateTime`
--   take a date with what reading it ends with. The process's user and group and `strtoull` are
--   parameters, the last with the law that it reads decimal numbers of 64 bits.
-- - Frameless: the slots of frameless functions in the tables of the engine: `fu_flf_handlers`,
--   `fu_flf_first_slot`, `fu_flf_key_system_id` and `fu_flf_disable_for_dl`.
-- - Startup: `PHP_MINIT_FUNCTION`, a start of the module, as a step on the statics of the file; the
--   engine's registration of classes, `pthread_atfork` and the CPU probes are parameters.
-- - The modules Live and Functions.Complete: that calls return, while the generator of the operating
--   system answers and its clock ticks between 1970 and 2554.
-- - Common: lists, Boolean tests, bit masks and integers that the parts share. Tests: a system to
--   try the theorems on, and the theorems applied to it.
--
-- Integers are natural numbers with the wrap-around of the C type written out where it can occur. A
-- failing function is a pair of an exception and the state at that point. The loop of
-- `fu_drbg_fill` runs on fuel equal to the number of bytes asked for, as every round writes one at
-- least; the loops of `fu_aes_ctr` run on the length for the same reason, and the theorem about
-- `aes_ctr` states all of its output.
--
-- The loop of `fu_gen_v4_batch_n` runs on fuel equal to the number of UUIDs, as every round adds one
-- at least.
--
-- The loop of `fu_to_decimal` runs on the 40 places of its buffer, and the theorem about `to_decimal`
-- states all of its output.
--
-- Not modelled: the CPU probes, which read processor registers; the information page; the reading of
-- arguments by the engine's macros, also at the entry points of frameless calls; and erasing secrets
-- from memory.
pub mod Common
pub mod Uuid
pub mod Hex
pub mod Zend
pub mod Parse
pub mod State
pub mod Layout
pub mod Ctr
pub mod Aes
pub mod Random
pub mod Clock
pub mod V7
pub mod Generate
pub mod Decimal
pub mod Resolve
pub mod SelfTest
pub mod Compare
pub mod Args
pub mod Object
pub mod DateTime
pub mod Methods
pub mod Functions
pub mod Frameless
pub mod Startup
pub mod Tests
