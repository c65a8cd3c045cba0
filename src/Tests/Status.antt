-- ===== src/Tests/Status.antt =====
-- src/util/status.c at concrete codes. The theorems on it have no condition.
use tag_sim.Common.{◌≡◌, refl}
use tag_sim.Status.Text.{status_to_str}

timeout_text :
    status_to_str 12 ≡ "STATUS_TIMEOUT. A timeout was reached waiting for an operation to complete."
unfolding status_to_str
timeout_text = refl

unknown_text : status_to_str 2000 ≡ "Unknown status code!"
unfolding status_to_str
unknown_text = refl
