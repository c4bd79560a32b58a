-- ===== src/Tests/Requests.antt =====
-- Requests on the two channels, one of them while calls fail.
use vussa.Base.{◌==◌, refl, false, none, some, List, [], ◌∷◌, find, arith}
use vussa.Models.{AuthUser}
use vussa.Channels.{ChannelAdminRequest}
use vussa.Database.Tables.{has_member}
use vussa.Io.{Env}
use vussa.Services.Ownership.{IsConsistent, has_owner_row, owner_of}
use vussa.Services.Main.{HasMain}
use vussa.Requests.{Operation, run}
use vussa.Requests.Consistency.{run-IsConsistent}
use vussa.Requests.MainChannel.{run-HasMain}
use vussa.Tests.Data.{services, alice, logged_in, two_channels, start}

-- The owner cannot leave, hands the channel over, and then can; the transfer meets a failure first.
abbrev handover : List (Env × Operation)
handover =
    (services (λ n. false), Operation.leave (logged_in alice) "team")
    ∷ (services (λ n. n == 6), Operation.transfer (logged_in alice) "team" 8)
    ∷ (services (λ n. false), Operation.transfer (logged_in alice) "team" 8)
    ∷ (services (λ n. false), Operation.leave (logged_in alice) "team")
    ∷ []

pub two_channels-IsConsistent : IsConsistent two_channels
unfolding has_owner_row owner_of find has_member
two_channels-IsConsistent = record {
  ids = (refl, (refl, tt));
  names = (refl, (refl, tt));
  agree = λ channel user. ground arith;
  known = λ channel user h. ground arith;
}

run-IsConsistent_example : IsConsistent (run start handover).db
run-IsConsistent_example = run-IsConsistent start handover two_channels-IsConsistent

abbrev root : AuthUser
root = record {
  id = 1;
  email = "root@example.com";
  username = "root";
  roles = "admin" ∷ [];
  permissions = "channels:write" ∷ [];
}

abbrev new_name : ChannelAdminRequest
new_name = record {
  name = some "lobby";
  description = none;
  retention_days = some 30;
  posting_restricted = none;
}

abbrev deletions : List (Env × Operation)
deletions =
    (services (λ n. false), Operation.delete alice "main")
    ∷ (services (λ n. false), Operation.delete alice "team")
    ∷ (services (λ n. false), Operation.admin_state (logged_in root) 2 "undelete")
    ∷ (services (λ n. false), Operation.admin_state (logged_in root) 1 "delete")
    ∷ (services (λ n. false), Operation.admin_update (logged_in root) 1 new_name)
    ∷ []

two_channels-HasMain : HasMain two_channels
two_channels-HasMain = record { live = refl }

run-HasMain_example : HasMain (run start deletions).db
run-HasMain_example = run-HasMain start deletions two_channels-IsConsistent two_channels-HasMain
