-- ===== src/Auth.antt =====
-- backend/src/auth.rs: permissions.
use vussa.Base.{String, str_eq, any, if◌then◌else◌, Bool}
use vussa.Models.{AuthUser}
use vussa.Error.{Result, ok, err, forbidden}

-- `user.permissions.iter().any(|value| value == permission)`.
abbrev pub has_permission : AuthUser → String → Bool
has_permission user permission = any (λ value. str_eq value permission) user.permissions

pub require_permission : AuthUser → String → Result (Unit {0})
require_permission user permission =
    if has_permission user permission then ok tt else err (forbidden "permission denied")
