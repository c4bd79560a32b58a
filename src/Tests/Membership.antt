-- ===== src/Tests/Membership.antt =====
-- The owner of the private channel removes a member, and somebody creates a public channel with the
-- name of a private one that was deleted.
use vussa.Base.{◌≡◌, refl, false, none, some, ◌∷◌, [], find}
use vussa.Error.{ok}
use vussa.Database.{ChannelRow}
use vussa.Database.Tables.{has_name}
use vussa.Text.{normalize_channel_name, trim, trim_start, trim_end}
use vussa.Io.{World}
use vussa.Io.Ensures.{OnOk}
use vussa.Services.{remove_member, create_public_channel}
use vussa.Services.Removal.{NoAccess, remove_member-NoAccess}
use vussa.Services.Revival.{IsNamed, create_public_channel-IsNamed}
use vussa.Tests.Data.{ascii, services, alice, bob, start, two_channels, main_row, team_row}
use vussa.Tests.Requests.{two_channels-IsConsistent}

remove_member-NoAccess_example :
    OnOk (λ _. NoAccess "team" 8 5000) (remove_member (services (λ n. false)) alice "team" 8 start)
remove_member-NoAccess_example =
    remove_member-NoAccess (services (λ n. false)) alice "team" 8 5000 start
      two_channels-IsConsistent (refl, (refl, tt))

abbrev deleted_team : ChannelRow
deleted_team = record team_row { deleted_at = some 9 }

abbrev without_team : World
without_team = record start { db = record two_channels { channels = main_row ∷ deleted_team ∷ [] } }

team_name : normalize_channel_name ascii " team" ≡ ok "team"
unfolding normalize_channel_name trim trim_start trim_end
team_name = refl

team_there : find (has_name "team") without_team.db.channels ≡ some deleted_team
unfolding find
team_there = refl

-- The revived channel is private, and still its first owner's.
create_public_channel-IsNamed_example :
    OnOk
      (λ _. IsNamed (record deleted_team { deleted_at = none }))
      (create_public_channel (services (λ n. false)) bob " team" without_team)
create_public_channel-IsNamed_example =
    create_public_channel-IsNamed deleted_team (services (λ n. false)) bob " team" without_team
      team_name team_there
