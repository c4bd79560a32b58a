-- ===== src/Error.antt =====
-- backend/src/error.rs: the errors of the backend, and how each becomes an HTTP answer.
mod Kinds
pub use Kinds.{StatusCode, SqlxError, RepositoryError}
use vussa.Base.{String, Bool, true, false, List, [], ◌∷◌, if◌then◌else◌}

pub record AppError : Type 0 where
  pub status : StatusCode
  pub message : String

pub data Result {ℓ} (A : Type ℓ) : Type ℓ where
  ok : A → Result A
  err : AppError → Result A

abbrev pub bad_request : String → AppError
bad_request message = record { status = StatusCode.bad_request; message = message }

abbrev pub unauthorized : String → AppError
unauthorized message = record { status = StatusCode.unauthorized; message = message }

abbrev pub forbidden : String → AppError
forbidden message = record { status = StatusCode.forbidden; message = message }

abbrev pub not_found : String → AppError
not_found message = record { status = StatusCode.not_found; message = message }

abbrev pub internal_server_error : String → AppError
internal_server_error message = record {
  status = StatusCode.internal_server_error;
  message = message;
}

abbrev pub service_unavailable : String → AppError
service_unavailable message = record { status = StatusCode.service_unavailable; message = message }

abbrev pub too_many_requests : String → AppError
too_many_requests message = record { status = StatusCode.too_many_requests; message = message }

-- `impl From<redis::RedisError> for AppError`.
abbrev pub from_redis_error : AppError
from_redis_error = service_unavailable "cache service unavailable"

-- `impl From<sqlx::Error> for AppError`.
abbrev pub from_sqlx_error : SqlxError → AppError
from_sqlx_error e = internal_server_error "database request failed"

-- `impl From<RepositoryError> for AppError`.
abbrev pub from_repository_error : RepositoryError → AppError
from_repository_error RepositoryError.not_found = not_found "resource not found"
from_repository_error RepositoryError.forbidden = forbidden "operation not permitted"
from_repository_error (RepositoryError.database e) = internal_server_error "database request failed"
from_repository_error (RepositoryError.migration e) =
    internal_server_error "database initialization failed"

abbrev pub map_conflict : RepositoryError → AppError
map_conflict (RepositoryError.database SqlxError.reported) =
    bad_request "email or username already exists"
map_conflict other = from_repository_error other

-- What `into_response` answers: the status, the headers, and the text under "error".
pub record Response : Type 0 where
  pub status : StatusCode
  pub headers : List (String × String)
  pub error : String

abbrev pub is_too_many_requests : StatusCode → Bool
is_too_many_requests StatusCode.too_many_requests = true
is_too_many_requests other = false

unfoldable pub into_response : AppError → Response
into_response e = record {
  status = e.status;
  headers = if is_too_many_requests e.status then ("retry-after", "1") ∷ [] else [];
  error = e.message;
}
