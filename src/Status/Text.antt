-- ===== src/Status/Text.antt =====
-- `status_to_str` of src/util/status.c.
use Prim.Native.String.{String}
use text.Mathlib.Text.{◌==◌ as str_eq}
use tag_sim.Common.Texts.{codes}
use tag_sim.Common.{ℕ, Option, none, some, List, [], ◌∷◌, ◌==◌, if◌then◌else◌}
use tag_sim.Status.Codes.{
  Status, ok, pending, terminate, would_block, not_found, not_recognized, not_supported, bad_input,
  aborted, busy, partial, out_of_bounds, timeout, null_ptr, no_resource, setup_failure,
  internal_failure, external_failure, not_allowed, value,
}

-- The `switch`: its cases in the order of the source, then `default`.
unfoldable pub status_to_str : ℕ → String
status_to_str status =
    if status == value ok
    then "STATUS_OK.  No errors."
    else if status == value pending
    then "STATUS_PENDING. Waiting for an operation to complete."
    else if status == value terminate
    then "STATUS_TERMINATE.  Shut down or shutting down."
    else if status == value would_block
    then "STATUS_WOULD_BLOCK. The operation would block if it was not asynchronous."
    else if status == value not_found
    then "STATUS_NOT_FOUND. The requested item was not found."
    else if status == value not_recognized
    then "STATUS_NOT_RECOGNIZED. The requested operation was not recognized."
    else if status == value not_supported
    then "STATUS_NOT_SUPPORTED.  The requested operation was recognized but not supported."
    else if status == value bad_input
    then "STATUS_BAD_INPUT.  The value of a parameter is not supported or usable."
    else if status == value aborted
    then "STATUS_ABORTED.  The operation was aborted externally."
    else if status == value busy
    then "STATUS_BUSY. An operation is already underway."
    else if status == value timeout
    then "STATUS_TIMEOUT. A timeout was reached waiting for an operation to complete."
    else if status == value partial
    then "STATUS_PARTIAL. Incomplete data was found."
    else if status == value out_of_bounds
    then "STATUS_OUT_OF_BOUNDS. Attempt to access data out of bounds."
    else if status == value null_ptr
    then "STATUS_NULL_PTR.  One or more internal arguments were NULL."
    else if status == value no_resource
    then "STATUS_NO_RESOURCE. Insufficient or bad resource."
    else if status == value setup_failure
    then "STATUS_SETUP_FAILURE. Creation or configuration of a resource failed."
    else if status == value internal_failure
    then "STATUS_INTERNAL_FAILURE. Something went wrong inside the code."
    else if status == value external_failure
    then "STATUS_EXTERNAL_FAILURE. A failure was reported outside the code."
    else if status == value not_allowed
    then "STATUS_NOT_ALLOWED. Operation is not allowed."
    else "Unknown status code!"

abbrev every_status : List Status
every_status =
    ok ∷ pending ∷ terminate ∷ would_block ∷ not_found ∷ not_recognized ∷ not_supported ∷ bad_input
    ∷ aborted ∷ busy ∷ partial ∷ out_of_bounds ∷ timeout ∷ null_ptr ∷ no_resource ∷ setup_failure
    ∷ internal_failure ∷ external_failure ∷ not_allowed ∷ []

-- The first enumerator of the list with the text.
find_status : String → List Status → Option Status
unfolding status_to_str
find_status text [] = none
find_status text (s ∷ rest) =
    if str_eq (status_to_str (value s)) text then some s else find_status text rest

-- The status that a text names, if it names one.
pub status_of : String → Option Status
unfolding find_status
status_of text = find_status text every_status

-- The enumerators as the source spells them.
abbrev pub spelled : Status → String
spelled ok = "STATUS_OK"
spelled pending = "STATUS_PENDING"
spelled terminate = "STATUS_TERMINATE"
spelled would_block = "STATUS_WOULD_BLOCK"
spelled not_found = "STATUS_NOT_FOUND"
spelled not_recognized = "STATUS_NOT_RECOGNIZED"
spelled not_supported = "STATUS_NOT_SUPPORTED"
spelled bad_input = "STATUS_BAD_INPUT"
spelled aborted = "STATUS_ABORTED"
spelled busy = "STATUS_BUSY"
spelled partial = "STATUS_PARTIAL"
spelled out_of_bounds = "STATUS_OUT_OF_BOUNDS"
spelled timeout = "STATUS_TIMEOUT"
spelled null_ptr = "STATUS_NULL_PTR"
spelled no_resource = "STATUS_NO_RESOURCE"
spelled setup_failure = "STATUS_SETUP_FAILURE"
spelled internal_failure = "STATUS_INTERNAL_FAILURE"
spelled external_failure = "STATUS_EXTERNAL_FAILURE"
spelled not_allowed = "STATUS_NOT_ALLOWED"

-- The characters of a text before its first full stop.
abbrev before_stop : List ℕ → List ℕ
before_stop [] = []
before_stop (c ∷ text) = if c == 46 then [] else c ∷ before_stop text

-- What a text says up to its first full stop.
abbrev pub headline : ℕ → List ℕ
headline status = before_stop (codes (status_to_str status))
