-- ===== src/Tests/Helpers.antt =====
-- The inline functions of src/util/time_utils.h.
use tag_sim.Common.{◌≡◌, refl, true, false}
use tag_sim.Helpers.{ptr_before}

-- The last address is before the address 8, but null is not.
last_is_before : ptr_before 18446744073709551615 8 ≡ true
unfolding ptr_before
last_is_before = refl

null_is_not_before : ptr_before 0 8 ≡ false
unfolding ptr_before
null_is_not_before = refl
