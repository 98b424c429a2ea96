-- ===== src/Error/Tests.antt =====
-- A failed allocation and what is said of it.
use dmrlib.Common.{◌≡◌, refl}
use dmrlib.Error.{
  enomem, einval, lasterror, unset, other, ErrorState, dmr_error, error_get, error_clear, message,
  set_message,
}

abbrev quiet : ErrorState
quiet = record { no = other; msg = ""; priority = unset }

error_get_enomem : error_get (dmr_error enomem quiet) ≡ "out of memory"
unfolding error_get dmr_error message set_message
error_get_enomem = refl

-- The last error leaves the message.
error_get_lasterror : error_get (dmr_error lasterror (dmr_error einval quiet)) ≡ "invalid argument"
unfolding error_get dmr_error message set_message
error_get_lasterror = refl

error_get_cleared : error_get (error_clear (dmr_error einval quiet)) ≡ "no error"
unfolding error_get error_clear dmr_error message set_message
error_get_cleared = refl
