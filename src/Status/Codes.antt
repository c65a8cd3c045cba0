-- ===== src/Status/Codes.antt =====
-- `status_t` and the two tests of status.h.
use tag_sim.Common.{ℕ, Bool, true, false, ◌&&◌, ltb, leb, if◌then◌else◌}

-- The enumerators, in the order of the source.
pub data Status : Type 0 where
  ok pending terminate would_block not_found not_recognized not_supported bad_input aborted : Status
  busy partial out_of_bounds timeout null_ptr no_resource setup_failure : Status
  internal_failure external_failure not_allowed : Status

-- The number that C gives an enumerator: the first is 0, each other one more than the one before it.
abbrev pub value : Status → ℕ
value ok = 0
value pending = 1
value terminate = 2
value would_block = 3
value not_found = 4
value not_recognized = 5
value not_supported = 6
value bad_input = 7
value aborted = 8
value busy = 9
value partial = 10
value out_of_bounds = 11
value timeout = 12
value null_ptr = 13
value no_resource = 14
value setup_failure = 15
value internal_failure = 16
value external_failure = 17
value not_allowed = 18

-- A `status_t` is any number of the enumeration's integer type.
unfoldable pub status_is_warning : ℕ → Bool
status_is_warning status = if leb 1000 status && ltb status 2000 then true else false

unfoldable pub status_is_error : ℕ → Bool
status_is_error status = if leb 2000 status then true else false
