-- ===== src/Error.antt =====
-- `Status` of cpp_lib/error/status.cc and the error constructors of cpp_lib/error/errors.h.
pub mod Messages
use Prim.Native.String.{String}
use cpp_lib.Prelude.{ℕ, Bool, true, false, Option, none, some, ◌==◌, if◌then◌else◌}

pub data Code : Type 0 where
  ok timeout not_found already_exist out_of_range data_loss invalid_argument unimplemented : Code
  unavailable internal : Code

-- The value of each enumerator.
unfoldable pub code_value : Code → ℕ
code_value ok = 0
code_value timeout = 1
code_value not_found = 2
code_value already_exist = 3
code_value out_of_range = 4
code_value data_loss = 5
code_value invalid_argument = 6
code_value unimplemented = 7
code_value unavailable = 8
code_value internal = 20

-- `msg_` is `none` for `nullptr`, and otherwise the text behind its length.
pub record Status : Type 0 where
  pub code : Code
  pub msg : Option String

-- `Assign`: the old message goes, and the test is of the member that was just set to `nullptr`.
unfoldable pub assign : Status → Code → Option String → Status
assign s c text =
    let cleared : Status = record { code = c; msg = none } in
    elim cleared.msg [ none ↦ cleared | some old ↦ record cleared { msg = text } ]

-- A member-initialised object, before its constructor's body.
abbrev blank : Status
blank = record { code = ok; msg = none }

-- `Status(code, const char*)` and `Status(code, std::string)`.
unfoldable pub construct : Code → Option String → Status
construct c text = assign blank c text

unfoldable pub copy_message : Option String → Option String
copy_message none = none
copy_message (some text) = some text

-- The copy constructor.
unfoldable pub copy : Status → Status
copy other = record { code = other.code; msg = copy_message other.msg }

-- `operator=(const Status&)`; `same` says that both sides are one object.
unfoldable pub copy_assign : Bool → Status → Status → Status
copy_assign same s other =
    if same then s else record { code = other.code; msg = copy_message other.msg }

-- `operator=(error::Code)`.
unfoldable pub assign_code : Status → Code → Status
assign_code s c = record { code = c; msg = none }

unfoldable pub is_ok : Status → Bool
is_ok s = elim s.code [ ok ↦ true | _ ↦ false ]

unfoldable pub type_name : Code → String
type_name ok = "OK"
type_name timeout = "Timeout"
type_name not_found = "Not found"
type_name already_exist = "Already exists"
type_name out_of_range = "Out of range"
type_name data_loss = "Data loss"
type_name invalid_argument = "Invalid argument"
type_name unimplemented = "Unimplemented"
type_name unavailable = "Unavailable"
type_name internal = "Internal"

-- `null_read` is the `memcpy` from a null `msg_`.
pub data Text : Type 0 where
  text : String → Text
  null_read : Text

unfoldable pub to_string : Status → Text
to_string s =
    if is_ok s
    then text "OK"
    else elim s.msg [ none ↦ null_read | some m ↦ text (type_name s.code) ]

-- `Timeout(msg)` and the other constructors that `DEFINE_ERROR` makes.
unfoldable pub make_error : Code → String → Status
make_error c message = construct c (some message)

-- `IsTimeout` and the other tests that `DECLARE_ERROR` makes.
unfoldable pub is_error : Code → Status → Bool
is_error c s = code_value s.code == code_value c
