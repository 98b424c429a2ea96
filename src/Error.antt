-- ===== src/Error.antt =====
-- src/dmr/error.c: the last error, a thread-local record, and the codes of include/dmr/error.h.
mod Tests
use Prim.Native.String.{String}
use text.Mathlib.Text.{◌==◌ as string_eq}
use dmrlib.Common.{if◌then◌else◌}

-- What is returned: 0, or -1 with the error that is set before, if one is.
pub data Status : Type 0 where
  done failed invalid_argument out_of_memory last_error : Status

-- `dmr_errno`; `other` is every number that it does not name.
pub data Errno : Type 0 where
  enomem einval ewrite eread unsupported lasterror other : Errno

pub data Priority : Type 0 where
  critical error_level unset : Priority

-- `dmr_error_t`.
pub record ErrorState : Type 0 where
  pub no : Errno
  pub msg : String
  pub priority : Priority

abbrev pub error_enomem : String
error_enomem = "out of memory"

abbrev pub error_einval : String
error_einval = "invalid argument"

abbrev pub error_ewrite : String
error_ewrite = "write failed"

abbrev pub error_eread : String
error_eread = "read failed"

abbrev pub error_unsupported : String
error_unsupported = "not supported"

abbrev pub error_unknown : String
error_unknown = "unkonwn error"

unfoldable pub set_message : String → Priority → ErrorState → ErrorState
set_message text level state = record state { priority = level; msg = text }

unfoldable pub message : Errno → ErrorState → ErrorState
unfolding set_message
message enomem state = set_message error_enomem critical state
message einval state = set_message error_einval error_level state
message ewrite state = set_message error_ewrite error_level state
message eread state = set_message error_eread error_level state
message unsupported state = set_message error_unsupported error_level state
message lasterror state = state
message other state = set_message error_unknown error_level state

-- The function returns -1 after this.
unfoldable pub dmr_error : Errno → ErrorState → ErrorState
dmr_error err state = message err (record state { no = err })

unfoldable pub error_get : ErrorState → String
error_get state = if string_eq state.msg "" then "no error" else state.msg

unfoldable pub error_clear : ErrorState → ErrorState
error_clear state = record state { msg = "" }
