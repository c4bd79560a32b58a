-- ===== src/Database/Tables.antt =====
-- The predicates on rows and the rewritings of tables that the SQL statements of the services share.
use vussa.Base.{
  ℕ, ◌==◌, String, str_eq, Bool, true, false, ◌&&◌, ◌||◌, Option, none, some, List, [], ◌∷◌, any,
  ltb, if◌then◌else◌,
}
use vussa.Models.{Uuid}
use vussa.Database.Rows.{ChannelRow, MemberRow, BanRow, UserRow, Db}

-- `column IS NULL`.
abbrev pub is_null {ℓ} : {A : Type ℓ} → Option A → Bool
is_null none = true
is_null (some a) = false

-- `column = $1` at a column that may be null.
abbrev pub equals : Option Uuid → Uuid → Bool
equals none u = false
equals (some v) u = v == u

-- `UPDATE … SET … WHERE …`.
unfoldable pub update {ℓ} : {A : Type ℓ} → (A → Bool) → (A → A) → List A → List A
update p f [] = []
update p f (x ∷ xs) = (if p x then f x else x) ∷ update p f xs

abbrev pub has_name : String → ChannelRow → Bool
has_name name c = str_eq c.name name

abbrev pub has_id : Uuid → ChannelRow → Bool
has_id id c = c.id == id

-- `c.name=$1 AND c.deleted_at IS NULL`.
abbrev pub is_live : String → ChannelRow → Bool
is_live name c = has_name name c && is_null c.deleted_at

-- `cm.channel_id=$1 AND cm.user_id=$2`.
abbrev pub is_membership : Uuid → Uuid → MemberRow → Bool
is_membership channel user m = m.channel_id == channel && m.user_id == user

unfoldable pub has_member : List MemberRow → Uuid → Uuid → Bool
has_member members channel user = any (is_membership channel user) members

abbrev pub expires_after : ℕ → Option ℕ → Bool
expires_after now none = false
expires_after now (some t) = ltb now t

-- `b.revoked_at IS NULL AND (b.expires_at IS NULL OR b.expires_at > now)`.
abbrev pub is_active : ℕ → BanRow → Bool
is_active now b = is_null b.revoked_at && (is_null b.expires_at || expires_after now b.expires_at)

-- A ban of the user that covers the channel, or every channel.
abbrev pub covers : Uuid → Uuid → ℕ → BanRow → Bool
covers channel user now b =
    b.user_id == user && is_active now b && (is_null b.channel_id || equals b.channel_id channel)

unfoldable pub is_banned : Db → Uuid → Uuid → ℕ → Bool
is_banned db channel user now = any (covers channel user now) db.bans

-- A ban of the user from every channel.
unfoldable pub is_globally_banned : Db → Uuid → ℕ → Bool
is_globally_banned db user now =
    any (λ b. b.user_id == user && is_null b.channel_id && is_active now b) db.bans

-- `users` that are neither disabled nor deleted.
abbrev pub is_enabled : Uuid → UserRow → Bool
is_enabled user u = u.id == user && is_null u.disabled_at && is_null u.deleted_at
