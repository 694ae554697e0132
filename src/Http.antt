-- ===== src/Http.antt =====
-- The HTTP server (src/python/hypervec_http_server.py): what a route answers, and the exceptions that
-- it turns into status codes.
pub mod Routes
pub mod Router
pub mod Laws
pub mod Isolation
use hyper_vector.Common.{ℕ, Option, none, some, List, []}
use hyper_vector.Common.Result.{
  Error, Result, ok, err, value_error, conflict_error, file_not_found, file_exists,
  operational_error, key_error, type_error, runtime_error,
}
use hyper_vector.Common.Exec.{Exec}

-- `sent` is the status 200, `failed` an HTTPException.
pub data Response (A : Type 0) : Type 0 where
  sent : A → Response A
  failed : ℕ → Response A

abbrev pub status : {A : Type 0} → Response A → ℕ
status (sent a) = 200
status (failed code) = code

-- A ConflictError is no ValueError, and a KeyError and a TypeError are none either.
unfoldable pub fail : Error → ℕ
fail file_not_found = 404
fail file_exists = 409
fail conflict_error = 409
fail value_error = 400
fail operational_error = 500
fail key_error = 500
fail type_error = 500
fail runtime_error = 500

abbrev pub Handler : Type 0 → Type 0 → Type 0
Handler S A = S → Response A × S

-- What a route answers for what its body did.
unfoldable pub response : {A B : Type 0} → (A → B) → Result A → Response B
unfolding fail
response f (ok a) = sent (f a)
response f (err e) = failed (fail e)

-- `try: return ...` with `except Exception as exc: raise fail(exc)`
unfoldable pub attempt : {S A B : Type 0} → (A → B) → Exec S A → Handler S B
unfolding response
attempt f m s = let (r, t) = m s in (response f r, t)
