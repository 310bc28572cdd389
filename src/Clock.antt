-- ===== src/Clock.antt =====
-- fast_uuid.c: the wall clock (`fu_unix_nanos`, of which `State` runs the POSIX branch) and the monotonic timestamps of
-- versions 1, 6 and 2. The text of `strerror` behind the first message is left out.
pub mod Marks
pub mod Windows
pub mod Live
use fast_uuid.Common.{
  ℕ, zero, suc, ◌+◌, ◌-◌, ◌*◌, ◌/◌, ◌%◌, ◌^◌, Option, none, some, leb, ltb, ◌==◌, if◌then◌else◌,
  bit_and, bit_or, Result, ok, err, Exception, unsupported_operation,
}
use fast_uuid.Common.Int.{ℤ, pos, negsuc}
use fast_uuid.State.{State, Os, M, throw, continue}
use fast_uuid.Layout.{greg_unix_epoch, shl64, shr}

-- What the calls after `clock_gettime` make of its answer.
unfoldable pub nanos : Option (ℤ × ℕ) → Result ℕ
nanos none = err (unsupported_operation "clock_gettime(CLOCK_REALTIME) failed: ")
nanos (some (negsuc sec, nsec)) =
    err (unsupported_operation "System clock is before the Unix epoch")
nanos (some (pos sec, nsec)) =
    if ltb ((2 ^ 64 - 1 - nsec) / 1000000000) sec
    then err
        (unsupported_operation "System clock too far in the future for nanosecond representation")
    else ok (sec * 1000000000 + nsec)

unfoldable pub unix_nanos : Os → M ℕ
unfolding nanos
unix_nanos os s = (nanos (os.clock_gettime s.reads), record s { reads = s.reads + 1 })

-- 1601-01-01 to 1970-01-01 in ticks of 100 ns.
abbrev pub filetime_unix_epoch : ℕ
filetime_unix_epoch = 116444736000000000

-- The Windows branch behind the reading of the two words of a FILETIME.
unfoldable pub filetime_nanos : ℕ × ℕ → Result ℕ
filetime_nanos (high, low) =
    let t100 = bit_or (shl64 high 32) low in
    if ltb t100 filetime_unix_epoch
    then err (unsupported_operation "System clock is before the Unix epoch")
    else if ltb ((2 ^ 64 - 1) / 100) (t100 - filetime_unix_epoch)
    then err
        (unsupported_operation "System clock too far in the future for nanosecond representation")
    else ok ((t100 - filetime_unix_epoch) * 100)

-- The Windows branch: what `fu_precise_time` reads, where MINIT found it, or the coarse time.
unfoldable pub windows_nanos : Option (ℕ × ℕ) → ℕ × ℕ → Result ℕ
unfolding filetime_nanos
windows_nanos (some precise) coarse = filetime_nanos precise
windows_nanos none coarse = filetime_nanos coarse

unfoldable pub greg_now : Os → M ℕ
unfolding unix_nanos
greg_now os s = continue (unix_nanos os s) (λ ns t. (ok (ns / 100 + greg_unix_epoch), t))

-- The high-water mark that versions 1 and 6 share.
unfoldable pub advance_greg : ℕ → M ℕ
advance_greg g s =
    if leb g s.greg_last
    then (if s.greg_last == 2 ^ 60 - 1
        then (err (unsupported_operation "Gregorian timestamp exhausted"), s)
        else (ok (s.greg_last + 1), record s { greg_last = s.greg_last + 1 }))
    else (ok g, record s { greg_last = g })

unfoldable pub greg_monotonic : Os → M ℕ
unfolding greg_now advance_greg
greg_monotonic os s = continue (greg_now os s) advance_greg

-- The mark of version 2 is on the visible 28 bits.
unfoldable pub advance_v2 : ℕ → M ℕ
advance_v2 g s =
    let low = bit_and g 0xffffffff in
    if leb (shr g 32) s.v2_last
    then (if s.v2_last == 2 ^ 28 - 1
        then (err (unsupported_operation "v2 timestamp exhausted"), s)
        else (ok (bit_or (shl64 (s.v2_last + 1) 32) low), record s { v2_last = s.v2_last + 1 }))
    else (ok (bit_or (shl64 (shr g 32) 32) low), record s { v2_last = shr g 32 })

unfoldable pub v2_monotonic : Os → M ℕ
unfolding greg_now advance_v2
v2_monotonic os s = continue (greg_now os s) advance_v2
