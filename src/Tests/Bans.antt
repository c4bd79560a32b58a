-- ===== src/Tests/Bans.antt =====
-- A ban from one channel.
use vussa.Base.{refl, false, some, [], ◌∷◌}
use vussa.Models.{AuthUser}
use vussa.Io.Ensures.{OnOk}
use vussa.Services.Removal.{NoAccess}
use vussa.Bans.{BanRequest, admin_create_ban}
use vussa.Bans.Barring.{admin_create_ban-NoAccess}
use vussa.Tests.Data.{services, logged_in, start}
use vussa.Tests.Requests.{two_channels-IsConsistent}

abbrev moderator : AuthUser
moderator = record {
  id = 1;
  email = "mod@example.com";
  username = "mod";
  roles = "moderator" ∷ [];
  permissions = "moderation:write" ∷ [];
}

abbrev week_ban : BanRequest
week_ban = record {
  user_id = 8;
  channel = some "main";
  reason = "spam";
  expires_at = some 604800000;
}

admin_create_ban-NoAccess_example :
    OnOk
      (λ _. NoAccess "main" 8 604799999)
      (admin_create_ban (services (λ n. false)) (logged_in moderator) week_ban start)
admin_create_ban-NoAccess_example =
    admin_create_ban-NoAccess (services (λ n. false)) (logged_in moderator) week_ban "main"
      604799999 start two_channels-IsConsistent refl refl
