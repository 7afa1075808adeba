-- ===== src/Status.antt =====
-- The `OSStatus` codes of CoreAudio that libASPL returns, by name: no code of the library computes
-- with their numbers. A handler of the driver's author may return any other code.
use lib_aspl.Prelude.{ℕ, Bool, true, false}

pub data Status : Type 0 where
  no_error : Status
  unspecified_error : Status
  unknown_property_error : Status
  bad_property_size_error : Status
  illegal_operation_error : Status
  bad_object_error : Status
  unsupported_operation_error : Status
  unsupported_format_error : Status
  other_error : ℕ → Status

-- `status == kAudioHardwareNoError`
abbrev pub is_ok : Status → Bool
is_ok no_error = true
is_ok _ = false
