-- ===== src/Tests/Errors.antt =====
-- The theorems on cpp_lib/error at concrete inputs.
use cpp_lib.Prelude.{◌≡◌, if◌then◌else◌}
use cpp_lib.Error.{timeout, copy, is_ok, text, null_read, to_string, make_error}
use cpp_lib.Error.Messages.{made, copied, to_string-Built}

to_string-Built_example :
    to_string (copy (make_error timeout "too slow"))
    ≡ (if is_ok (copy (make_error timeout "too slow")) then text "OK" else null_read)
to_string-Built_example = to_string-Built (copied (made timeout "too slow"))
