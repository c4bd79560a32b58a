-- ===== src/Services/Removal.antt =====
-- Whom the owner removes from a private channel has no access to it any more.
mod Rows
pub use Rows.{same_membership}
use vussa.Base.{
  and_left, not-false, ℕ, ◌≡◌, refl, ◌∙◌, sym, String, eq_iff, Bool, true, false, not, ◌&&◌, ◌||◌,
  Option, none, some, List, [], ◌∷◌, any, any-keep_fewer, keep, find, find-some, find-any, Distinct,
  arith, subst, ap, inl, inr, Bool-cases,
}
use vussa.Models.{Uuid, AuthUser}
use vussa.Database.{Db, Kind, ChannelRow, MemberRow, is_private, is_public}
use vussa.Database.Tables.{is_null, is_membership, has_member, has_name, is_live, is_banned}
use vussa.Io.{Env, World}
use vussa.Io.Keeps.{bind-Keeps, lift-Keeps, now-Keeps, query-Keeps, pure-Keeps}
use vussa.Io.Ensures.{
  OnOk, Ensures, Establishes, bind-Ensures, Keeps-Ensures, query-Ensures, or_fail-Ensures,
  reject-Ensures, execute-Ensures, transaction-Ensures_ok,
}
use vussa.Access.{can_access, is_owned_private, id_of, owned_private_channel}
use vussa.Services.Statements.{delete_member, is_removable}
use vussa.Services.Publishing.Logs.{
  LogsApart, record_audit-Keeps, publish_system_message-Keeps, broadcast_members-Keeps,
}
use vussa.Services.Ownership.{IsConsistent, same_name}
use vussa.Services.{remove_rows, remove_member}
use Rows.{removed-row, only_named}

abbrev pub NoAccess : String → Uuid → ℕ → Db → Type 0
NoAccess channel user later db = can_access db channel user later ≡ false

pub NoAccess-LogsApart :
    (channel : String) (user : Uuid) (later : ℕ) → LogsApart (NoAccess channel user later)
unfolding can_access is_banned
NoAccess-LogsApart channel user later = record {
  audits = λ db rows h. h;
  messages = λ db rows h. h;
}

-- Consistent tables where nobody is twice a member of a channel.
abbrev pub HasMembersOnce : Db → Type 0
HasMembersOnce db = IsConsistent db × Distinct same_membership db.members

private_public : (k : Kind) → is_private k ≡ true → is_public k ≡ false
private_public Kind.public h = ground arith
private_public Kind.private h = refl
private_public Kind.direct h = refl

owned_named :
    (channel : String) (owner : Uuid) (c : ChannelRow)
    → is_owned_private channel owner c ≡ true
    → has_name channel c ≡ true
owned_named channel owner c h = ground arith

owned_kind :
    (channel : String) (owner : Uuid) (c : ChannelRow)
    → is_owned_private channel owner c ≡ true
    → is_private c.kind ≡ true
owned_kind channel owner c h = ground arith

and_false : (a b c d : Bool) → b ≡ false → c ≡ false → (a && (b || c) && d) ≡ false
and_false a b c d h k = ground arith

-- The private channel that the owner named, once the row of the member is gone.
no_access :
    (db : Db) (c : ChannelRow) (channel : String) (owner user : Uuid) (later : ℕ)
    → HasMembersOnce db
    → find (is_owned_private channel owner) db.channels ≡ some c
    → any (is_removable c.id user) db.members ≡ true
    → NoAccess channel user later
        (record db { members = keep (λ m. not (is_removable c.id user m)) db.members })
unfolding can_access has_member
no_access db c channel owner user later v found removable =
    let owned = find-some (is_owned_private channel owner) db.channels c found in
    only_named channel (is_owned_private channel owner) _ (owned_named channel owner)
      (λ d h.
        and_left (has_name channel d) (is_null d.deleted_at)
          (and_left (is_live channel d) _ (and_left (is_live channel d && _) _ h)))
      db.channels c v.0.names found
      (and_false (is_live channel c) (is_public c.kind) _ _
        (private_public c.kind (owned_kind channel owner c owned))
        (removed-row c.id user db.members v.1 removable))

-- What `owned_private_channel` found.
abbrev pub IsOwned : String → Uuid → Uuid → Db → Type 0
IsOwned channel owner id db =
    HasMembersOnce db × (id_of (find (is_owned_private channel owner) db.channels) ≡ some id)

module _ (env : Env) (actor : AuthUser) (channel : String) (user : Uuid) (later : ℕ) where
  owned_private_channel-Ensures :
      Ensures HasMembersOnce (owned_private_channel env channel actor.id) (IsOwned channel actor.id)
  unfolding owned_private_channel
  owned_private_channel-Ensures =
      bind-Ensures
        (λ found db.
          HasMembersOnce db
          × (id_of (find (is_owned_private channel actor.id) db.channels) ≡ found))
        (query-Ensures env _ λ db v. (v, refl))
        λ found. or_fail-Ensures _ found λ id is_id db h. (h.0, h.1 ∙ is_id)

  found_row :
      (o : Option ChannelRow) (id : Uuid)
      → id_of o ≡ some id
      → (c : ChannelRow) × (o ≡ some c) × (c.id ≡ id)
  found_row none id h = cc
  found_row (some c) id h = (c, refl, cc)

  delete-Establishes :
      (id : Uuid) (db : Db)
      → IsOwned channel actor.id id db
      → Establishes
          (λ removed after. removed ≡ true → NoAccess channel user later after)
          (delete_member id user db)
  unfolding delete_member
  delete-Establishes id db v removed =
      let (c, found, is_id) =
        found_row (find (is_owned_private channel actor.id) db.channels) id v.1 in
      subst
        (λ n.
          NoAccess channel user later
            (record db { members = keep (λ m. not (is_removable n user m)) db.members }))
        is_id
        (no_access db c channel actor.id user later v.0 found
          (subst (λ n. any (is_removable n user) db.members ≡ true) (sym is_id) removed))

  remove_rows-Ensures :
      (id : Uuid) (t : ℕ)
      → Ensures
          (IsOwned channel actor.id id)
          (remove_rows env actor id user t)
          (λ _. NoAccess channel user later)
  unfolding remove_rows
  remove_rows-Ensures id t =
      bind-Ensures (λ removed after. removed ≡ true → NoAccess channel user later after)
        (execute-Ensures env _ (delete-Establishes id))
        λ removed.
          bind-Ensures (λ _. NoAccess channel user later)
            (reject-Ensures _ _ λ kept db h. h (not-false removed kept))
            λ _. Keeps-Ensures (
              bind-Keeps _ _ (query-Keeps env _) λ found.
                bind-Keeps _ _
                  (record_audit-Keeps (NoAccess-LogsApart channel user later) env _ _ _ id _ t)
                  λ _. pure-Keeps _)

  remove_member-Ensures :
      Ensures HasMembersOnce
        (remove_member env actor channel user)
        (λ _. NoAccess channel user later)
  unfolding remove_member
  remove_member-Ensures =
      bind-Ensures (λ _. HasMembersOnce) (Keeps-Ensures (lift-Keeps _))
        λ _. bind-Ensures (IsOwned channel actor.id) owned_private_channel-Ensures λ id.
          bind-Ensures (λ _. IsOwned channel actor.id id) (Keeps-Ensures (now-Keeps env))
            λ t.
              bind-Ensures (λ _. NoAccess channel user later)
                (transaction-Ensures_ok env _ (remove_rows-Ensures id t))
                λ target. Keeps-Ensures (
                  bind-Keeps _ _
                    (publish_system_message-Keeps (NoAccess-LogsApart channel user later) env
                      channel _)
                    λ _. bind-Keeps _ _ (broadcast_members-Keeps env channel) λ _. pure-Keeps tt)

  -- From consistent tables where nobody is twice a member of a channel: if `remove_member` succeeds,
  -- the user who was removed has no access to the channel afterwards, at any time.
  pub remove_member-NoAccess :
      (w : World)
      → IsConsistent w.db
      → Distinct same_membership w.db.members
      → OnOk (λ _. NoAccess channel user later) (remove_member env actor channel user w)
  remove_member-NoAccess w v once = remove_member-Ensures.at w (v, once)
