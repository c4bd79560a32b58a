-- ===== src/Members/Ownership.antt =====
-- Leaving, promoting, demoting and transferring keep owners and their rows in agreement: what the
-- statements of backend/src/api/members.rs do to them.
pub mod Handlers
pub mod Transfer
use vussa.Base.{
  ◌==◌, ◌≡◌, refl, String, ◌∙◌, sym, Bool, true, false, not, ◌&&◌, Option, none, some, List, [],
  ◌∷◌, any, keep, any_of_keep, find, inl, inr, arith, Option-cases,
}
use vussa.Models.{Uuid}
use vussa.Database.{Db, ChannelRow, MemberRow, Role, is_owner, is_member, is_moderator}
use vussa.Database.Tables.{has_id, is_live, equals, is_membership, has_member, update}
use vussa.Io.Keeps.{Writes}
use vussa.Services.Ownership.{IsConsistent, has_owner_row, is_owner_row, owner_of, find-id}
use vussa.Members.Statements.{
  select_membership, delete_membership, set_role, with_role, promote, demote, membership, with_row,
}

-- An update that no row with the property notices.
module _ (p q : MemberRow → Bool) (role : Role)
    (same : (m : MemberRow) → p m ≡ true → q (with_role role m) ≡ q m) where
  pub any-set_role : (ms : List MemberRow) → any q (update p (with_role role) ms) ≡ any q ms
  unfolding update
  any-set_role [] = refl
  any-set_role (m ∷ ms) = ground (arith, same m, any-set_role ms)

pub has_member-set_role :
    (p : MemberRow → Bool) (role : Role) (ms : List MemberRow) (c u : Uuid)
    → has_member (update p (with_role role) ms) c u ≡ has_member ms c u
unfolding has_member
has_member-set_role p role ms c u = any-set_role p (is_membership c u) role (λ m h. refl) ms

-- From one low role to another.
set_role-Writes :
    (p : MemberRow → Bool) (role : Role) (db : Db)
    → is_owner role ≡ false
    → ((m : MemberRow) → p m ≡ true → is_owner m.membership_role ≡ false)
    → IsConsistent db
    → Writes IsConsistent (set_role p role db)
unfolding set_role has_owner_row
set_role-Writes p role db low was_low v = record {
  ids = v.ids;
  names = v.names;
  agree = λ c u.
      any-set_role p (is_owner_row c u) role (λ m h. ground (arith, was_low m h)) db.members
      ∙ v.agree c u;
  known = λ c u h. v.known c u (sym (has_member-set_role p role db.members c u) ∙ h);
}

low_of_member : (r : Role) → is_member r ≡ true → is_owner r ≡ false
low_of_member Role.owner h = cc
low_of_member Role.moderator h = refl
low_of_member Role.member h = refl

low_of_moderator : (r : Role) → is_moderator r ≡ true → is_owner r ≡ false
low_of_moderator Role.owner h = cc
low_of_moderator Role.moderator h = refl
low_of_moderator Role.member h = refl

pub promote-Writes :
    (channel user : Uuid) (db : Db)
    → IsConsistent db
    → Writes IsConsistent (promote channel user db)
unfolding promote
promote-Writes channel user db v =
    set_role-Writes _ Role.moderator db refl (λ m h. low_of_member m.membership_role (ground arith))
      v

pub demote-Writes :
    (channel user : Uuid) (db : Db) → IsConsistent db → Writes IsConsistent (demote channel user db)
unfolding demote
demote-Writes channel user db v =
    set_role-Writes _ Role.member db refl (λ m h. low_of_moderator m.membership_role (ground arith))
      v

delete-owner_rows :
    (channel user : Uuid) (ms : List MemberRow)
    → has_owner_row ms channel user ≡ false
    → (c u : Uuid)
    → has_owner_row (keep (λ m. not (is_membership channel user m)) ms) c u ≡ has_owner_row ms c u
unfolding has_owner_row keep
delete-owner_rows channel user [] low c u = refl
delete-owner_rows channel user (m ∷ ms) low c u =
    ground (arith, delete-owner_rows channel user ms (ground arith) c u)

-- Every row of a member who is no owner may go.
pub delete_membership-Writes :
    (channel user : Uuid) (db : Db)
    → has_owner_row db.members channel user ≡ false
    → IsConsistent db
    → Writes IsConsistent (delete_membership channel user db)
unfolding delete_membership has_member
delete_membership-Writes channel user db low v = record {
  ids = v.ids;
  names = v.names;
  agree = λ c u. delete-owner_rows channel user db.members low c u ∙ v.agree c u;
  known = λ c u h.
      v.known c u
        (any_of_keep (is_membership c u) (λ m. not (is_membership channel user m)) db.members h);
}

membership-row :
    (ms : List MemberRow) (user : Uuid) (o : Option ChannelRow) (row : ChannelRow × MemberRow)
    → membership ms user o ≡ some row
    → o ≡ some row.0
unfolding membership
membership-row ms user none row h = cc
membership-row ms user (some c) row h = elim (Option-cases (find (is_membership c.id user) ms)) [
  | inl e ↦ cc (rw e at h)
  | inr (m, e) ↦ cc (rw e at h)
]

-- The row that `leave_channel` reads tells who owns the channel.
pub select_membership-owner :
    (name : String) (user : Uuid) (row : ChannelRow × MemberRow) (db : Db)
    → IsConsistent db
    → select_membership name user db ≡ some row
    → has_owner_row db.members row.0.id user ≡ equals row.0.owner_user_id user
unfolding select_membership owner_of
select_membership-owner name user row db v h =
    v.agree row.0.id user
    ∙ rw (
        find-id (is_live name) db.channels row.0 v.ids
          (membership-row db.members user (find (is_live name) db.channels) row h))
