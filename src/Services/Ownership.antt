-- ===== src/Services/Ownership.antt =====
-- The owner that a channel names is the one member of it with the role of an owner, and members are
-- members of channels that exist: what each SQL statement of backend/src/services.rs does to that.
pub mod Statements
pub mod Operations
use vussa.Base.{
  ℕ, ◌==◌, ◌≡◌, refl, String, Bool, true, false, not, ◌&&◌, ◌||◌, Option, none, some, List, [], ◌∷◌,
  ◌++◌, any, any-append, any-keep, Distinct, Distinct-append, find-key, eq_iff, str_eq_refl, find,
  find-append, find-append_left, find-none, if◌then◌else◌, arith, Bool-cases, Option-cases, inl,
  inr, ap, ==_refl,
}
use vussa.Models.{Uuid}
use vussa.Database.{Db, ChannelRow, MemberRow, Kind, Role, is_owner}
use vussa.Database.Tables.{has_id, has_name, is_live, equals, is_membership, has_member, update}

abbrev pub is_owner_row : Uuid → Uuid → MemberRow → Bool
is_owner_row channel user m = is_membership channel user m && is_owner m.membership_role

unfoldable pub has_owner_row : List MemberRow → Uuid → Uuid → Bool
has_owner_row members channel user = any (is_owner_row channel user) members

abbrev owner : Option ChannelRow → Option Uuid
owner none = none
owner (some c) = c.owner_user_id

unfoldable pub owner_of : List ChannelRow → Uuid → Option Uuid
owner_of channels id = owner (find (has_id id) channels)

abbrev pub same_id : ChannelRow → ChannelRow → Bool
same_id c d = has_id c.id d

abbrev pub same_name : ChannelRow → ChannelRow → Bool
same_name c d = has_name c.name d

pub record IsConsistent (db : Db) : Type 0 where
  pub ids : Distinct same_id db.channels
  pub names : Distinct same_name db.channels
  pub agree :
      (channel user : Uuid)
      → has_owner_row db.members channel user ≡ equals (owner_of db.channels channel) user
  pub known :
      (channel user : Uuid)
      → has_member db.members channel user ≡ true
      → any (has_id channel) db.channels ≡ true

-- An update that leaves identifiers, names and owners alone.
module _ (p : ChannelRow → Bool) (f : ChannelRow → ChannelRow)
    (keeps_id : (c : ChannelRow) → (f c).id ≡ c.id) where
  pub has_id-update :
      (cs : List ChannelRow) (id : Uuid) → any (has_id id) (update p f cs) ≡ any (has_id id) cs
  unfolding update
  has_id-update [] id = refl
  has_id-update (c ∷ cs) id = ground (arith, keeps_id c, has_id-update cs id)

  pub update-ids : (cs : List ChannelRow) → Distinct same_id cs → Distinct same_id (update p f cs)
  unfolding update
  update-ids [] d = tt
  update-ids (c ∷ cs) d = (ground (arith, keeps_id c, has_id-update cs c.id), update-ids cs d.1)

module _ (p : ChannelRow → Bool) (f : ChannelRow → ChannelRow)
    (keeps_name : (c : ChannelRow) → (f c).name ≡ c.name) where
  has_name-update :
      (cs : List ChannelRow) (name : String)
      → any (has_name name) (update p f cs) ≡ any (has_name name) cs
  unfolding update
  has_name-update [] name = refl
  has_name-update (c ∷ cs) name = ground (arith, keeps_name c, has_name-update cs name)

  pub update-names :
      (cs : List ChannelRow) → Distinct same_name cs → Distinct same_name (update p f cs)
  unfolding update
  update-names [] d = tt
  update-names (c ∷ cs) d =
      (ground (arith, keeps_name c, has_name-update cs c.name), update-names cs d.1)

module _ (p : ChannelRow → Bool) (f : ChannelRow → ChannelRow)
    (keeps_id : (c : ChannelRow) → (f c).id ≡ c.id)
    (keeps_name : (c : ChannelRow) → (f c).name ≡ c.name)
    (keeps_owner : (c : ChannelRow) → (f c).owner_user_id ≡ c.owner_user_id) where
  owner_of-update :
      (cs : List ChannelRow) (id : Uuid) → owner_of (update p f cs) id ≡ owner_of cs id
  unfolding owner_of update find
  owner_of-update [] id = refl
  owner_of-update (c ∷ cs) id = ground (arith, keeps_id c, keeps_owner c, owner_of-update cs id)

  pub update-IsConsistent :
      (db : Db) → IsConsistent db → IsConsistent (record db { channels = update p f db.channels })
  update-IsConsistent db v = record {
    ids = update-ids p f keeps_id db.channels v.ids;
    names = update-names p f keeps_name db.channels v.names;
    agree = λ c u. rw (owner_of-update db.channels c) (v.agree c u);
    known = λ c u h. rw (has_id-update p f keeps_id db.channels c) (v.known c u h);
  }

same_id_sym : (a b : ChannelRow) → same_id a b ≡ same_id b a
same_id_sym a b = ground arith

same_name_sym : (a b : ChannelRow) → same_name a b ≡ same_name b a
same_name_sym a b = ground (arith, eq_iff a.name b.name, eq_iff b.name a.name)

-- A row with a new identifier and a new name.
pub append-ids :
    (cs : List ChannelRow) (c : ChannelRow)
    → any (has_id c.id) cs ≡ false
    → Distinct same_id cs
    → Distinct same_id (cs ++ c ∷ [])
append-ids cs c new d = Distinct-append same_id same_id_sym cs c d new

pub append-names :
    (cs : List ChannelRow) (c : ChannelRow)
    → any (has_name c.name) cs ≡ false
    → Distinct same_name cs
    → Distinct same_name (cs ++ c ∷ [])
append-names cs c new d = Distinct-append same_name same_name_sym cs c d new

-- The row that any condition finds is the one of its identifier, and of its name.
pub find-id :
    (p : ChannelRow → Bool) (cs : List ChannelRow) (c : ChannelRow)
    → Distinct same_id cs
    → find p cs ≡ some c
    → find (has_id c.id) cs ≡ some c
find-id = find-key same_id same_id_sym (λ c. ==_refl c.id)

pub find-name :
    (p : ChannelRow → Bool) (cs : List ChannelRow) (c : ChannelRow)
    → Distinct same_name cs
    → find p cs ≡ some c
    → find (has_name c.name) cs ≡ some c
find-name = find-key same_name same_name_sym (λ c. str_eq_refl c.name)

-- A row with a new identifier.
pub owner_of-append :
    (cs : List ChannelRow) (c : ChannelRow) (id : Uuid)
    → any (has_id c.id) cs ≡ false
    → owner_of (cs ++ c ∷ []) id ≡ (if c.id == id then c.owner_user_id else owner_of cs id)
unfolding owner_of find
owner_of-append [] c id h = ground arith
owner_of-append (d ∷ cs) c id h = ground (arith, owner_of-append cs c id)

owner_of_absent :
    (cs : List ChannelRow) (id : Uuid) → any (has_id id) cs ≡ false → owner_of cs id ≡ none
unfolding owner_of find
owner_of_absent [] id h = refl
owner_of_absent (c ∷ cs) id h = ground (arith, owner_of_absent cs id)

-- No member of a channel that is not there.
pub no_owner_row :
    (db : Db) (id user : Uuid)
    → IsConsistent db
    → any (has_id id) db.channels ≡ false
    → has_owner_row db.members id user ≡ false
no_owner_row db id user v h = rw (v.agree id user) (rw (owner_of_absent db.channels id h))

pub no_member :
    (db : Db) (id user : Uuid)
    → IsConsistent db
    → any (has_id id) db.channels ≡ false
    → has_member db.members id user ≡ false
no_member db id user v h = ground (arith, v.known id user)

pub has_owner_row-append :
    (ms : List MemberRow) (m : MemberRow) (channel user : Uuid)
    → has_owner_row (ms ++ m ∷ []) channel user
      ≡ (has_owner_row ms channel user || is_owner_row channel user m)
unfolding has_owner_row
has_owner_row-append ms m channel user =
    rw (any-append (is_owner_row channel user) ms (m ∷ [])) (ground arith)

pub has_member-append :
    (ms : List MemberRow) (m : MemberRow) (channel user : Uuid)
    → has_member (ms ++ m ∷ []) channel user
      ≡ (has_member ms channel user || is_membership channel user m)
unfolding has_member
has_member-append ms m channel user =
    rw (any-append (is_membership channel user) ms (m ∷ [])) (ground arith)
