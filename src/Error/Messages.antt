-- ===== src/Error/Messages.antt =====
-- The statuses that the operations of cpp_lib/error/status.cc can build.
use Prim.Native.String.{String}
use cpp_lib.Prelude.{
  ℕ, ◌≡◌, refl, ap, ◌∙◌, ◌↔◌, Bool, true, false, Option, none, ◌==◌, ==_iff, if◌then◌else◌, arith,
}
use cpp_lib.Error.{
  Code, ok, timeout, not_found, already_exist, out_of_range, data_loss, invalid_argument,
  unimplemented, unavailable, internal, code_value, Status, assign, construct, copy_message, copy,
  copy_assign, assign_code, is_ok, text, null_read, to_string, make_error, is_error,
}

-- A status that constructors and assignments have made.
pub data Built : Status → Type 0 where
  constructed : (c : Code) (message : Option String) → Built (construct c message)
  made : (c : Code) (message : String) → Built (make_error c message)
  copied : {s : Status} → Built s → Built (copy s)
  assigned :
      {s : Status} (c : Code) (message : Option String) → Built s → Built (assign s c message)
  coded : {s : Status} (c : Code) → Built s → Built (assign_code s c)
  copy_assigned : {s t : Status} (same : Bool) → Built s → Built t → Built (copy_assign same s t)

Built-msg : {s : Status} → Built s → s.msg ≡ none
unfolding construct assign make_error copy copy_message assign_code copy_assign
Built-msg (constructed c message) = refl
Built-msg (made c message) = refl
Built-msg (copied b) = ground (arith, Built-msg b)
Built-msg (assigned c message b) = refl
Built-msg (coded c b) = refl
Built-msg (copy_assigned same b d) = ground (arith, Built-msg b, Built-msg d)

-- For every status that the constructors and assignments of the class can build, `ToString` gives
-- "OK" if its code is OK, and otherwise reads through the null pointer.
pub to_string-Built :
    {s : Status} → Built s → to_string s ≡ (if is_ok s then text "OK" else null_read)
unfolding to_string
to_string-Built {s} b = rw (Built-msg b, to_string) refl

code_of : ℕ → Code
code_of n =
    if n == 0
    then ok
    else if n == 1
    then timeout
    else if n == 2
    then not_found
    else if n == 3
    then already_exist
    else if n == 4
    then out_of_range
    else if n == 5
    then data_loss
    else if n == 6
    then invalid_argument
    else if n == 7
    then unimplemented
    else if n == 8
    then unavailable
    else internal

code_of-code_value : (c : Code) → code_of (code_value c) ≡ c
unfolding code_of code_value
code_of-code_value ok = refl
code_of-code_value timeout = refl
code_of-code_value not_found = refl
code_of-code_value already_exist = refl
code_of-code_value out_of_range = refl
code_of-code_value data_loss = refl
code_of-code_value invalid_argument = refl
code_of-code_value unimplemented = refl
code_of-code_value unavailable = refl
code_of-code_value internal = refl

code_value-injective : (c d : Code) → code_value c ≡ code_value d → c ≡ d
code_value-injective c d h = cc (code_of-code_value c, code_of-code_value d, h)

make_error-code : (c : Code) (message : String) → (make_error c message).code ≡ c
unfolding make_error construct assign
make_error-code c message = refl

-- The test of one kind of error holds of exactly the errors that its constructor makes, whatever
-- the message, and answers the same of a copy; such a status is OK exactly if its code is.
pub is_error-make_error :
    (c d : Code) (message : String)
    → ((is_error c (make_error d message) ≡ true) ↔ (d ≡ c))
      × (is_error c (copy (make_error d message)) ≡ is_error c (make_error d message))
      × ((is_ok (make_error d message) ≡ true) ↔ (d ≡ ok))
unfolding is_error is_ok copy make_error construct assign
is_error-make_error c d message = (
  (
    λ h. code_value-injective d c ((==_iff _ _).0 (rw (make_error-code d message) at h)),
    λ p. (==_iff _ _).1 (ap code_value (make_error-code d message ∙ p)),
  ),
  refl,
  is_ok_iff d,
)
  where
    is_ok_iff : (e : Code) → (elim e [ ok ↦ true | _ ↦ false ] ≡ true) ↔ (e ≡ ok)
    is_ok_iff e = (ground arith, ground arith)
