-- ===== src/Error/Kinds.antt =====
-- backend/src/error.rs: the kinds of errors. `sqlx::Error` is kept to the distinction that the code
-- makes: an error that the database server reported (a constraint, among others), or any other.
use vussa.Base.{String}

-- The HTTP statuses that the backend answers with.
pub data StatusCode : Type 0 where
  bad_request unauthorized forbidden not_found internal_server_error : StatusCode
  service_unavailable too_many_requests : StatusCode

pub data SqlxError : Type 0 where
  reported : SqlxError
  failed : SqlxError

pub data RepositoryError : Type 0 where
  database : SqlxError → RepositoryError
  migration : String → RepositoryError
  not_found : RepositoryError
  forbidden : RepositoryError
