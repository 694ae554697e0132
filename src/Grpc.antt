-- ===== src/Grpc.antt =====
-- The gRPC server (src/python/hypervec_grpc_server.py): replies, and the exceptions that it turns into
-- status codes.
pub mod Servicer
use hyper_vector.Common.{ℕ, ◌*◌, String, Option, none, some, ◌==◌, str_eq, if◌then◌else◌}
use hyper_vector.Common.Result
use hyper_vector.Common.Result.{
  Error, Result, ok, err, value_error, conflict_error, file_not_found, file_exists,
  operational_error, key_error, type_error, runtime_error,
}
use hyper_vector.Common.Exec.{Exec}

pub data StatusCode : Type 0 where
  not_found already_exists failed_precondition invalid_argument internal : StatusCode

pub data Reply (A : Type 0) : Type 0 where
  replied : A → Reply A
  aborted : StatusCode → Reply A

-- `_status_for`
unfoldable pub status_for : Error → StatusCode
status_for file_not_found = not_found
status_for file_exists = already_exists
status_for conflict_error = failed_precondition
status_for value_error = invalid_argument
status_for type_error = invalid_argument
status_for operational_error = internal
status_for key_error = internal
status_for runtime_error = internal

unfoldable pub reply : {A B : Type 0} → (A → B) → Result A → Reply B
unfolding status_for
reply f (ok a) = replied (f a)
reply f (err e) = aborted (status_for e)

abbrev pub Rpc : Type 0 → Type 0 → Type 0
Rpc S A = S → Reply A × S

-- `try: ...` with `except Exception as exc: _abort(context, exc)`, which does not return.
unfoldable pub attempt : {S A B : Type 0} → (A → B) → Exec S A → Rpc S B
unfolding reply
attempt f m s = let (r, t) = m s in (reply f r, t)

-- A field of a message that holds JSON text: the empty text, a text that `json.loads` refuses, or one
-- that it reads. A value of another shape than the field is for is left out.
pub data JsonText (A : Type 0) : Type 0 where
  blank malformed : JsonText A
  holds : A → JsonText A

-- json.loads(text): a JSONDecodeError is a ValueError.
abbrev pub loads : {A : Type 0} → JsonText A → Result A
loads blank = err value_error
loads malformed = err value_error
loads (holds a) = ok a

-- json.loads(text or default)
abbrev pub loads_or : {A : Type 0} → A → JsonText A → Result A
loads_or default blank = ok default
loads_or default malformed = err value_error
loads_or default (holds a) = ok a

-- A text field that is not set is empty.
abbrev pub text_or_none : String → Option String
text_or_none s = if str_eq s "" then none else some s

abbrev pub or_empty : Option String → String
or_empty none = ""
or_empty (some s) = s

-- The limit on messages that `create_server` sets, for a positive number of megabytes.
unfoldable pub max_message_bytes : ℕ → Result ℕ
max_message_bytes max_message_mb =
    let max_bytes = max_message_mb * 1024 * 1024 in
    if max_bytes == 0 then err value_error else ok max_bytes
